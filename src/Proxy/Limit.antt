-- ===== src/Proxy/Limit.antt =====
-- listener.go `limitListener`: at most `max_conns` connections at a time. The buffer of the channel `sem`
-- is the number of its elements, and the closed channel `done` a Boolean.
pub mod Slots
pub mod Tests
use nas_conn_plus.Base.{
  ℕ, zero, suc, ◌-◌, ◌≤◌, ℤ, leb_ℤ, pos, ◌≡◌, ltb, List, [], ◌∷◌, ◌++◌, Option, none, some, Bool,
  true, false, not, ◌&&◌, Str, if◌then◌else◌,
}

-- `accepting` counts the calls of `Accept` that wait for the inner listener, and `conns` holds for each
-- accepted connection whether its `once` has run.
pub record LimitListener : Type 0 where
  pub max_conns : ℕ
  pub sem : ℕ
  pub done : Bool
  pub accepting : ℕ
  pub conns : List Bool

-- `newLimitListener` for a positive limit.
unfoldable pub new_limit_listener : ℕ → LimitListener
new_limit_listener n = record { max_conns = n; sem = 0; done = false; accepting = 0; conns = [] }

pub data Acquired : Type 0 where
  blocked : Acquired
  refused : Acquired
  got : LimitListener → Acquired

-- `acquire`: when both cases are ready, `select` takes either; `prefers_done` is its choice.
unfoldable pub acquire : Bool → LimitListener → Acquired
acquire prefers_done l =
    let free = ltb l.sem l.max_conns in
    if free && not (prefers_done && l.done)
    then got (record l { sem = suc l.sem; accepting = suc l.accepting })
    else if l.done
    then refused
    else blocked

unfoldable pub take_one : ℕ → Option ℕ
take_one zero = none
take_one (suc n) = some n

-- `release`: a receive from the channel, which blocks on an empty one.
unfoldable pub release : LimitListener → Option LimitListener
unfolding take_one
release l = elim (take_one l.sem) [ none ↦ none | some n ↦ some (record l { sem = n }) ]

-- `Close`.
unfoldable pub close : LimitListener → LimitListener
close l = record l { done = true }

pub data AcceptError : Type 0 where
  closed_error : AcceptError
  inner_error : Str → AcceptError

-- `Accept` once the inner listener has answered: an error gives the slot back.
unfoldable pub accept_failed : Str → LimitListener → Option (AcceptError × LimitListener)
accept_failed e l = elim (release l) [
  | none ↦ none
  | some l' ↦
      some
        (if l.done then closed_error else inner_error e, record l' { accepting = l.accepting - 1 })
]

unfoldable pub accepted : LimitListener → LimitListener
accepted l = record l { accepting = l.accepting - 1; conns = l.conns ++ (false ∷ []) }

-- `once` of the connection at the index: whether it has run before, and the list afterwards.
unfoldable pub run_once : ℕ → List Bool → Option (Bool × List Bool)
run_once n [] = none
run_once zero (b ∷ bs) = some (b, true ∷ bs)
run_once (suc n) (b ∷ bs) = elim (run_once n bs) [
  | none ↦ none
  | some (before, bs') ↦ some (before, b ∷ bs')
]

-- `once.Do(release)`, the common part of a connection's `Close` and `Release`.
unfoldable pub release_conn : ℕ → LimitListener → Option LimitListener
release_conn n l = elim (run_once n l.conns) [
  | none ↦ none
  | some (before, bs) ↦ let l' = record l { conns = bs } in if before then some l' else release l'
]

-- What goroutines may do to the listener, in any order.
pub data Step (l : LimitListener) : LimitListener → Type 0 where
  acquires : (p : Bool) (m : LimitListener) → acquire p l ≡ got m → Step l m
  fails :
      (e : Str) (answer : AcceptError) (m : LimitListener)
      → 1 ≤ l.accepting
      → accept_failed e l ≡ some (answer, m)
      → Step l m
  accepts : (m : LimitListener) → 1 ≤ l.accepting → accepted l ≡ m → Step l m
  releases : (n : ℕ) (m : LimitListener) → release_conn n l ≡ some m → Step l m
  closes : (m : LimitListener) → close l ≡ m → Step l m

-- Any number of steps.
pub data Steps (l : LimitListener) : LimitListener → Type 0 where
  none_yet : (m : LimitListener) → l ≡ m → Steps l m
  next : (m o : LimitListener) → Steps l m → Step m o → Steps l o
