-- ===== src/Base/Assoc.antt =====
-- Go maps as association lists. `range` visits the keys in the order of the list, which no theorem
-- fixes.
use mathlib.Core.Path.{◌≡◌, refl}
use mathlib.Core.Bool.{Bool, true, false, ◌||◌}
use mathlib.Core.Option.{Option, none, some}
use mathlib.Core.List.{List, [], ◌∷◌}
use native.Mathlib.Omega.{arith}
use nas_conn_plus.Base.Tests.{if◌then◌else◌}
use nas_conn_plus.Base.EqClass.{Eq, mem, distinct, eqb_refl}

abbrev pub Map {ℓ κ} : Type ℓ → Type κ → Type (ℓ ⊔ κ)
Map K V = List (K × V)

module _ {ℓ κ} {K : Type ℓ} {V : Type κ} where
  abbrev pub keys : Map K V → List K
  keys [] = []
  keys ((k, v) ∷ m) = k ∷ keys m

module _ {ℓ κ} {K : Type ℓ} {V : Type κ} ⦃e : Eq K⦄ where
  unfoldable pub get : K → Map K V → Option V
  get k [] = none
  get k ((j, v) ∷ m) = if e.beq j k then some v else get k m

  unfoldable pub put : K → V → Map K V → Map K V
  put k v [] = (k, v) ∷ []
  put k v ((j, w) ∷ m) = let rest = put k v m in if e.beq j k then (k, v) ∷ m else (j, w) ∷ rest

  unfoldable pub delete : K → Map K V → Map K V
  delete k [] = []
  delete k ((j, v) ∷ m) = let rest = delete k m in if e.beq j k then rest else (j, v) ∷ rest

  abbrev pub has : K → Map K V → Bool
  has k m = elim (get k m) [ none ↦ false | some _ ↦ true ]

  pub get-put :
      (k j : K) (v : V) (m : Map K V) → get j (put k v m) ≡ (if e.beq k j then some v else get j m)
  unfolding get put
  get-put k j v [] = refl
  get-put k j v ((i, w) ∷ m) =
      ground (arith, e.beq_iff k j, e.beq_iff i k, e.beq_iff i j, get-put k j v m)

  pub get-delete :
      (k j : K) (m : Map K V) → get j (delete k m) ≡ (if e.beq k j then none else get j m)
  unfolding get delete
  get-delete k j [] = ground arith
  get-delete k j ((i, w) ∷ m) =
      ground (arith, e.beq_iff k j, e.beq_iff i k, e.beq_iff i j, get-delete k j m)

  pub get-put_self : (k : K) (v : V) (m : Map K V) → get k (put k v m) ≡ some v
  get-put_self k v m = rw (get-put k k v m, eqb_refl k)

  pub get-put_other :
      (k j : K) (v : V) (m : Map K V) → e.beq k j ≡ false → get j (put k v m) ≡ get j m
  get-put_other k j v m h = rw (get-put k j v m, h)

  pub get-delete_self : (k : K) (m : Map K V) → get k (delete k m) ≡ none
  get-delete_self k m = rw (get-delete k k m, eqb_refl k)

  pub get-delete_other : (k j : K) (m : Map K V) → e.beq k j ≡ false → get j (delete k m) ≡ get j m
  get-delete_other k j m h = rw (get-delete k j m, h)

  pub mem-keys : (k : K) (m : Map K V) → mem k (keys m) ≡ has k m
  unfolding mem get
  mem-keys k [] = refl
  mem-keys k ((j, v) ∷ m) = ground (arith, mem-keys k m)

  mem-keys-put :
      (k j : K) (v : V) (m : Map K V) → mem j (keys (put k v m)) ≡ (e.beq k j || mem j (keys m))
  unfolding mem put
  mem-keys-put k j v [] = refl
  mem-keys-put k j v ((i, w) ∷ m) =
      ground (arith, e.beq_iff i k, e.beq_iff k j, e.beq_iff i j, mem-keys-put k j v m)

  pub distinct-put :
      (k : K) (v : V) (m : Map K V) → distinct (keys m) ≡ true → distinct (keys (put k v m)) ≡ true
  unfolding distinct put mem
  distinct-put k v [] h = refl
  distinct-put k v ((i, w) ∷ m) h =
      ground (arith, e.beq_iff i k, e.beq_iff k i, mem-keys-put k i v m, distinct-put k v m)

  mem-keys-delete :
      (k j : K) (m : Map K V) → mem j (keys m) ≡ false → mem j (keys (delete k m)) ≡ false
  unfolding mem delete
  mem-keys-delete k j [] h = refl
  mem-keys-delete k j ((i, w) ∷ m) h = ground (arith, mem-keys-delete k j m)

  pub distinct-delete :
      (k : K) (m : Map K V) → distinct (keys m) ≡ true → distinct (keys (delete k m)) ≡ true
  unfolding distinct delete mem
  distinct-delete k [] h = refl
  distinct-delete k ((i, w) ∷ m) h = ground (arith, mem-keys-delete k i m, distinct-delete k m)
