-- ===== src/Base/Text.antt =====
-- Texts as lists of bytes (of code points, where the source ranges over runes), and the parts of Go's
-- `strings` and `strconv` that the program calls.
pub mod Search
use Prim.Native.Nat.{ℕ, zero, suc, ◌+◌, ◌-◌, ◌/◌, ◌%◌, ◌*◌, ◌^◌}
use Prim.Native.Char.{code}
use Prim.Native.String.{String}
use mathlib.Core.Path.{◌≡◌, refl, sym}
use mathlib.Core.Logic.{◌↔◌}
use mathlib.Core.Bool.{Bool, true, false, ◌&&◌, ◌||◌, not}
use mathlib.Core.Option.{Option, none, some}
use mathlib.Core.List.{List, [], ◌∷◌, ◌++◌, reverse}
use native.Mathlib.Omega.{arith}
use nas_conn_plus.Base.Tests.{ltb, leb, ◌==◌, if◌then◌else◌, Bool-cases}
use nas_conn_plus.Base.Int.{ℤ, pos, negsuc, sub_ℕ}
use nas_conn_plus.Base.EqClass.{Eq, list_beq, list_beq_iff, nat_eq}

abbrev pub Str : Type 0
Str = List ℕ

-- The code points of a literal: its bytes, if it is ASCII.
abbrev pub codes : String → Str
codes String.[] = []
codes (String.◌∷◌ c s) = code c ∷ codes s

unfoldable pub str_beq : Str → Str → Bool
unfolding list_beq
str_beq = list_beq

pub str_beq_iff : (s t : Str) → (str_beq s t ≡ true) ↔ (s ≡ t)
unfolding str_beq
str_beq_iff = list_beq_iff

instance abbrev pub str_eq : Eq Str
str_eq = record { beq = str_beq; beq_iff = str_beq_iff }

abbrev pub is_empty : Str → Bool
is_empty [] = true
is_empty (c ∷ s) = false

-- `strings.HasPrefix(s, p)`.
unfoldable pub has_prefix : Str → Str → Bool
has_prefix [] s = true
has_prefix (c ∷ p) [] = false
has_prefix (c ∷ p) (d ∷ s) = c == d && has_prefix p s

-- `strings.Contains(s, p)`.
unfoldable pub contains : Str → Str → Bool
unfolding has_prefix
contains p [] = has_prefix p []
contains p (c ∷ s) = has_prefix p (c ∷ s) || contains p s

-- `strings.HasSuffix(s, p)`.
unfoldable pub has_suffix : Str → Str → Bool
unfolding has_prefix
has_suffix p s = has_prefix (reverse p) (reverse s)

-- One part is cut off at each separator: the parts already closed come from the right.
abbrev cut : ℕ → ℕ → List Str → List Str
cut sep c [] = [] ∷ []
cut sep c (part ∷ parts) = if c == sep then [] ∷ part ∷ parts else (c ∷ part) ∷ parts

-- `strings.Split(s, sep)` for a separator of one byte.
unfoldable pub split : ℕ → Str → List Str
split sep [] = [] ∷ []
split sep (c ∷ s) = cut sep c (split sep s)

unfoldable pub is_space : ℕ → Bool
is_space c = c == 32 || (leb 9 c && leb c 13)

abbrev drop_empty : List Str → List Str
drop_empty [] = []
drop_empty ([] ∷ parts) = drop_empty parts
drop_empty ((c ∷ part) ∷ parts) = (c ∷ part) ∷ drop_empty parts

cut_space : ℕ → List Str → List Str
cut_space c [] = (c ∷ []) ∷ []
cut_space c (part ∷ parts) = (c ∷ part) ∷ parts

space_parts : Str → List Str
unfolding is_space cut_space
space_parts [] = [] ∷ []
space_parts (c ∷ s) =
    let parts = space_parts s in if is_space c then [] ∷ parts else cut_space c parts

-- `strings.Fields(s)` on ASCII text.
unfoldable pub fields : Str → List Str
unfolding space_parts
fields s = drop_empty (space_parts s)

unfoldable pub join : Str → List Str → Str
join sep [] = []
join sep (part ∷ []) = part
join sep (part ∷ next ∷ parts) = part ++ (sep ++ join sep (next ∷ parts))

-- Decimal digits in front of `out`; `suc n` rounds are enough for `n`.
digits : ℕ → ℕ → Str → Str
digits zero n out = out
digits (suc fuel) n out =
    let more = digits fuel (n / 10) ((b'0' + n % 10) ∷ out) in
    if ltb n 10 then (b'0' + n) ∷ out else more

-- `strconv.Itoa`, and `%d`.
unfoldable pub itoa : ℤ → Str
unfolding digits
itoa (pos n) = digits (suc n) n []
itoa (negsuc n) = b'-' ∷ digits (suc (suc n)) (suc n) []

itoa_test : itoa (pos 31536000) ≡ codes "31536000"
unfolding itoa
itoa_test = refl

fields_test : fields (codes "  a bc\t d ") ≡ codes "a" ∷ codes "bc" ∷ codes "d" ∷ []
unfolding fields
fields_test = refl

is_digit : ℕ → Bool
is_digit c = leb b'0' c && leb c b'9'

-- The digits read so far stand for `n`.
read_digits : Str → ℕ → Option ℕ
unfolding is_digit
read_digits [] n = some n
read_digits (c ∷ s) n =
    let rest = read_digits s (n * 10 + (c - b'0')) in if is_digit c then rest else none

unfoldable pub read_nat : Str → Option ℕ
unfolding read_digits
read_nat [] = none
read_nat (c ∷ s) = read_digits (c ∷ s) 0

-- The range of a 64-bit `int`.
in_range : Bool → ℕ → Option ℤ
in_range negative n =
    if negative
    then (if leb n (2 ^ 63) then some (sub_ℕ 0 n) else none)
    else if ltb n (2 ^ 63)
    then some (pos n)
    else none

signed : Bool → Option ℕ → Option ℤ
unfolding in_range
signed negative none = none
signed negative (some n) = in_range negative n

-- `strconv.Atoi`: `none` is its error.
unfoldable pub atoi : Str → Option ℤ
unfolding read_nat signed
atoi [] = none
atoi (c ∷ s) =
    if c == b'-'
    then signed true (read_nat s)
    else if c == b'+'
    then signed false (read_nat s)
    else signed false (read_nat (c ∷ s))

clamp_int : Bool → Option ℕ → ℤ
clamp_int negative none = pos 0
clamp_int negative (some n) =
    if negative
    then sub_ℕ 0 (if leb n (2 ^ 63) then n else 2 ^ 63)
    else pos (if ltb n (2 ^ 63) then n else 2 ^ 63 - 1)

-- The number that `strconv.Atoi` returns along with an error or without: 0 for a text that is no
-- number, the nearest `int` for one out of range.
unfoldable pub atoi_value : Str → ℤ
unfolding read_nat clamp_int
atoi_value [] = pos 0
atoi_value (c ∷ s) =
    if c == b'-'
    then clamp_int true (read_nat s)
    else if c == b'+'
    then clamp_int false (read_nat s)
    else clamp_int false (read_nat (c ∷ s))

-- `strings.ToLower` on ASCII letters.
lower : ℕ → ℕ
lower c = if leb b'A' c && leb c b'Z' then c + 32 else c

unfoldable pub to_lower : Str → Str
unfolding lower
to_lower [] = []
to_lower (c ∷ s) = lower c ∷ to_lower s

atoi_test : (atoi (codes "-042") ≡ some (negsuc 41)) × (atoi (codes "4x") ≡ none)
unfolding atoi
atoi_test = (refl, refl)

-- The first bytes of a text, at most `n`.
unfoldable pub first_bytes : ℕ → Str → Str
first_bytes n [] = []
first_bytes zero (c ∷ s) = []
first_bytes (suc n) (c ∷ s) = c ∷ first_bytes n s
