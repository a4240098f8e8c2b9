-- ===== src/Base/Text/Search.antt =====
-- `HasPrefix` and `Contains` find what they say.
use mathlib.Core.Path.{◌≡◌, refl, ap}
use mathlib.Core.Logic.{inl, inr}
use mathlib.Core.Bool.{true}
use mathlib.Core.List.{[], ◌∷◌, ◌++◌}
use native.Mathlib.Omega.{arith}
use nas_conn_plus.Base.Tests.{Bool-cases}
use nas_conn_plus.Base.Text.{Str, has_prefix, contains}

pub has_prefix-append : (p s : Str) → has_prefix p (p ++ s) ≡ true
unfolding has_prefix
has_prefix-append [] s = refl
has_prefix-append (c ∷ p) s = ground (arith, has_prefix-append p s)

pub has_prefix-split : (p s : Str) → has_prefix p s ≡ true → (rest : Str) × (s ≡ p ++ rest)
unfolding has_prefix
has_prefix-split [] s h = (s, refl)
has_prefix-split (c ∷ p) [] h = cc
has_prefix-split (c ∷ p) (d ∷ s) h =
    let (rest, e) = has_prefix-split p s (ground arith) in (rest, ground arith)

pub contains-append : (b p s : Str) → contains p (b ++ (p ++ s)) ≡ true
unfolding contains
contains-append [] [] [] = refl
contains-append [] [] (c ∷ s) = refl
contains-append [] (c ∷ p) s = ground (arith, has_prefix-append (c ∷ p) s)
contains-append (c ∷ b) p s = ground (arith, contains-append b p s)

pub contains-split :
    (p s : Str) → contains p s ≡ true → (b : Str) × (rest : Str) × (s ≡ b ++ (p ++ rest))
unfolding contains
contains-split p [] h = let (rest, e) = has_prefix-split p [] h in ([], rest, e)
contains-split p (c ∷ s) h = elim (Bool-cases (has_prefix p (c ∷ s))) [
  | inl here ↦ let (rest, e) = has_prefix-split p (c ∷ s) here in ([], rest, e)
  | inr later ↦ let (b, rest, e) = contains-split p s (ground arith) in (c ∷ b, rest, ap (◌∷◌ c) e)
]
