-- ===== src/App/Arguments.antt =====
-- app.go: the word `status` among the arguments, which is no flag of the `flag` package. The source knows four
-- spellings of flags with a value; `--socket`, `-debug-addr` and `--debug-addr` are not among them.
use nas_conn_plus.Base.{
  Str, codes, str_beq, str_beq_iff, str_eq, ◌≡◌, ◌↔◌, ◌⊎◌, refl, List, [], ◌∷◌, ◌++◌, Option, none,
  some, Bool, true, false, not, ◌&&◌, ◌||◌, arith,
}

abbrev pub status : Str
status = codes "status"

-- The flags before which the word is a value, as the source lists them.
takes_value : Option Str → Bool
unfolding str_beq
takes_value none = false
takes_value (some prev) =
    str_beq prev (codes "-c")
    || (str_beq prev (codes "-config")
        || (str_beq prev (codes "--config") || str_beq prev (codes "-socket")))

abbrev is_command : Option Str → Str → Bool
is_command prev arg = str_beq arg status && not (takes_value prev)

keep_arg : Bool → Str → Bool × List Str → Bool × List Str
keep_arg true arg (found, rest) = (true, rest)
keep_arg false arg (found, rest) = (found, arg ∷ rest)

-- The loop over the arguments: whether the command was there, and the arguments without it. The argument
-- before the first is `none`.
filter_from : Option Str → List Str → Bool × List Str
unfolding keep_arg takes_value
filter_from prev [] = (false, [])
filter_from prev (arg ∷ args) = keep_arg (is_command prev arg) arg (filter_from (some arg) args)

unfoldable pub filter_arguments : List Str → Bool × List Str
unfolding filter_from
filter_arguments args = filter_from none args

-- The flags before which the word is a value.
abbrev pub IsFlag : Option Str → Type 0
IsFlag none = ⊥
IsFlag (some prev) =
    (prev ≡ codes "-c")
    ⊎ ((prev ≡ codes "-config") ⊎ ((prev ≡ codes "--config") ⊎ (prev ≡ codes "-socket")))

-- The word occurs directly behind one of the four only.
abbrev pub NoCommand : Option Str → List Str → Type 0
NoCommand prev [] = Unit {0}
NoCommand prev (arg ∷ args) = (arg ≡ status → IsFlag prev) × NoCommand (some arg) args

abbrev pub last_of : Option Str → List Str → Option Str
last_of prev [] = prev
last_of prev (arg ∷ args) = last_of (some arg) args

takes_value_iff : (prev : Option Str) → (takes_value prev ≡ true) ↔ IsFlag prev
unfolding takes_value
takes_value_iff none = ground arith
takes_value_iff (some p) = ground (
  arith,
  str_beq_iff p (codes "-c"),
  str_beq_iff p (codes "-config"),
  str_beq_iff p (codes "--config"),
  str_beq_iff p (codes "-socket"),
)

is_command-kept :
    (prev : Option Str) (arg : Str) → (arg ≡ status → IsFlag prev) → is_command prev arg ≡ false
is_command-kept prev arg h = ground (arith, str_beq_iff arg status, takes_value_iff prev)

filter_from-kept :
    (prev : Option Str) (args : List Str)
    → NoCommand prev args
    → filter_from prev args ≡ (false, args)
unfolding filter_from keep_arg
filter_from-kept prev [] v = refl
filter_from-kept prev (arg ∷ args) (h, v) =
    ground (arith, is_command-kept prev arg h, filter_from-kept (some arg) args v)

filter_from-command :
    (prev : Option Str) (before after : List Str)
    → NoCommand prev before
    → NoCommand (some status) after
    → ¬ IsFlag (last_of prev before)
    → filter_from prev (before ++ (status ∷ after)) ≡ (true, before ++ after)
unfolding filter_from keep_arg
filter_from-command prev [] after v u bare =
    ground (
      arith,
      str_beq_iff status status,
      takes_value_iff prev,
      filter_from-kept (some status) after u,
    )
filter_from-command prev (arg ∷ before) after (h, v) u bare =
    ground (arith, is_command-kept prev arg h, filter_from-command (some arg) before after v u bare)

-- The word `status`, where it does not stand directly behind one of `-c`, `-config`, `--config` and `-socket`, is
-- found as the command and taken out, and the other arguments keep their order, if no such word stands elsewhere
-- among them. Where the word stands directly behind one of these four only, it is no command, and all arguments
-- are kept. Behind any other flag, `--socket` and `-debug-addr` with a value included, the word is the command.
pub filter_arguments-anywhere :
    (before after : List Str)
    → NoCommand none before
    → NoCommand (some status) after
    → ¬ IsFlag (last_of none before)
    → (filter_arguments before ≡ (false, before))
      × (filter_arguments (before ++ (status ∷ after)) ≡ (true, before ++ after))
unfolding filter_arguments
filter_arguments-anywhere before after v u bare =
    (filter_from-kept none before v, filter_from-command none before after v u bare)
