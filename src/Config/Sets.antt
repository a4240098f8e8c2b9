-- ===== src/Config/Sets.antt =====
-- config.go: what `buildSet` and `unionPorts` compute.
use nas_conn_plus.Base.{
  ℤ, int_eq, eqb_ℤ_iff, ◌≡◌, refl, List, [], ◌∷◌, ◌++◌, true, false, ◌||◌, mem, distinct,
  mem-append, arith,
}
use nas_conn_plus.Config.{insert_key, build_from, build_set, append_new, union_ports}

build_from-mem : (p : ℤ) (s vs : List ℤ) → mem p (build_from s vs) ≡ (mem p s || mem p vs)
unfolding build_from mem
build_from-mem p s [] = ground arith
build_from-mem p s (v ∷ vs) = ground (arith, build_from-mem p (insert_key s v) vs, eqb_ℤ_iff p v)

-- The set holds the slice's ports and no other.
pub mem-build_set : (p : ℤ) (vs : List ℤ) → mem p (build_set vs) ≡ mem p vs
unfolding build_set mem
mem-build_set p vs = build_from-mem p [] vs

distinct-snoc :
    (p : ℤ) (s : List ℤ) → distinct s ≡ true → mem p s ≡ false → distinct (s ++ (p ∷ [])) ≡ true
unfolding distinct mem
distinct-snoc p [] h k = refl
distinct-snoc p (x ∷ s) h k =
    ground (arith, distinct-snoc p s, mem-append x s (p ∷ []), eqb_ℤ_iff x p, eqb_ℤ_iff p x)

-- `seen` and `res` hold the same ports all along.
append_new-mem :
    (q : ℤ) (ps seen res : List ℤ)
    → mem q seen ≡ mem q res
    → (mem q (append_new ps seen res).0 ≡ (mem q res || mem q ps))
      × (mem q (append_new ps seen res).1 ≡ (mem q res || mem q ps))
unfolding append_new mem
append_new-mem q [] seen res h = ground arith
append_new-mem q (p ∷ ps) seen res h = ground (
  arith,
  append_new-mem q ps seen res,
  append_new-mem q ps (p ∷ seen) (res ++ (p ∷ [])),
  mem-append q res (p ∷ []),
  eqb_ℤ_iff q p,
)

append_new-distinct :
    (ps seen res : List ℤ)
    → ((q : ℤ) → mem q seen ≡ mem q res)
    → distinct res ≡ true
    → distinct (append_new ps seen res).1 ≡ true
unfolding append_new mem
append_new-distinct [] seen res h d = d
append_new-distinct (p ∷ ps) seen res h d = ground (
  arith,
  h p,
  append_new-distinct ps seen res h,
  append_new-distinct ps (p ∷ seen) (res ++ (p ∷ []))
      (λ q. ground (arith, h q, mem-append q res (p ∷ []))),
  distinct-snoc p res,
)

-- A port is in the union exactly when it is in one of the lists, and it is there once.
pub mem-union_ports :
    (q : ℤ) (base extra : List ℤ) → mem q (union_ports base extra) ≡ (mem q base || mem q extra)
unfolding union_ports mem
mem-union_ports q base extra =
    let first = append_new base [] [] in
    let h = append_new-mem q base [] [] refl in
    ground (arith, append_new-mem q base [] [], append_new-mem q extra first.0 first.1)

pub union_ports-distinct : (base extra : List ℤ) → distinct (union_ports base extra) ≡ true
unfolding union_ports mem distinct
union_ports-distinct base extra =
    append_new-distinct extra (append_new base [] []).0 (append_new base [] []).1
      (λ q. ground (arith, append_new-mem q base [] []))
      (append_new-distinct base [] [] (λ q. refl) refl)
