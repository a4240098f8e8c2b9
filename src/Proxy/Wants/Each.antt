-- ===== src/Proxy/Wants/Each.antt =====
-- What the loops that build the wants put into the map.
use nas_conn_plus.Base.{
  ℤ, ◌+ℤ◌, eqb_ℤ, eqb_ℤ_iff, int_eq, ◌≡◌, refl, subst, inl, inr, List, [], ◌∷◌, some, Bool, true,
  ◌&&◌, ◌||◌, Map, get, put, get-put, mem, In, Bool-cases, arith,
}
use nas_conn_plus.Config.{HttpsPort}
use nas_conn_plus.Scanner.{ScanResult, Runtime}
use nas_conn_plus.Scanner.Prober.{Machine, probe_http}
use nas_conn_plus.Proxy.{https, relay, Key, key, key_eq, key_beq, key_beq_iff, Want, Service}
use nas_conn_plus.Proxy.Wants.{
  collect, is_active, rule_want, explicit_wants, auto_want, is_auto_candidate, auto_wants,
  relay_want, is_relayable, relay_wants,
}

pub mem-collect :
    (q : ℤ) (test : ℤ → Bool) (ps set : List ℤ)
    → mem q (collect test ps set) ≡ (mem q set || (test q && mem q ps))
unfolding collect mem
mem-collect q test [] set = ground arith
mem-collect q test (p ∷ ps) set = elim (Bool-cases (eqb_ℤ q p)) [
  | inl same ↦
      let e = (eqb_ℤ_iff q p).0 same in
      rw (← e)
        (ground (arith, mem-collect q test ps set, mem-collect q test ps (q ∷ set), eqb_ℤ_iff q q))
  | inr other ↦ ground (arith, mem-collect q test ps set, mem-collect q test ps (p ∷ set))
]

-- Every entry satisfies `P`.
abbrev pub Each : (Key → Want → Type 0) → Map Key Want → Type 0
Each P m = (k : Key) (w : Want) → get k m ≡ some w → P k w

put-Each :
    (P : Key → Want → Type 0) (k : Key) (w : Want) (m : Map Key Want)
    → P k w
    → Each P m
    → Each P (put k w m)
put-Each P k w m p h j v e = elim (Bool-cases (key_beq k j)) [
  | inr other ↦ h j v (ground (arith, get-put k j w m))
  | inl same ↦
      let w-is : w ≡ v = ground (arith, get-put k j w m) in
      subst (λ i. P i v) ((key_beq_iff k j).0 same) (subst (P k) w-is p)
]

pub explicit_wants-Each :
    (P : Key → Want → Type 0) (res : ScanResult) (rules : List HttpsPort) (m : Map Key Want)
    → ((r : HttpsPort)
        → In r rules
        → is_active res r.http ≡ true
        → P (key https r.https) (rule_want r))
    → Each P m
    → Each P (explicit_wants res rules m)
unfolding explicit_wants
explicit_wants-Each P res [] m ok' h = h
explicit_wants-Each P res (r ∷ rs) m ok' h = elim (Bool-cases (is_active res r.http)) [
  | inl up ↦ rw up (
      explicit_wants-Each P res rs (put (key https r.https) (rule_want r) m) (λ q i. ok' q (inr i))
        (put-Each P (key https r.https) (rule_want r) m (ok' r (inl refl) up) h))
  | inr down ↦ rw down (explicit_wants-Each P res rs m (λ q i. ok' q (inr i)) h)
]

mem-head : (p : ℤ) (ps : List ℤ) → mem p (p ∷ ps) ≡ true
unfolding mem
mem-head p ps = ground (arith, eqb_ℤ_iff p p)

mem-tail : (q p : ℤ) (ps : List ℤ) → mem q ps ≡ true → mem q (p ∷ ps) ≡ true
unfolding mem
mem-tail q p ps h = ground arith

pub auto_wants-Each :
    (P : Key → Want → Type 0) (o : Machine) (s : Service) (res : ScanResult) (ps : List ℤ)
    (rt : Runtime) (m : Map Key Want)
    → ((p : ℤ) (n : Map Key Want)
        → mem p ps ≡ true
        → is_auto_candidate s p n ≡ true
        → P (key https (p +ℤ s.cfg.https_offset)) (auto_want res p (p +ℤ s.cfg.https_offset)))
    → Each P m
    → Each P (auto_wants o s res ps rt m).0
unfolding auto_wants
auto_wants-Each P o s res [] rt m ok' h = h
auto_wants-Each P o s res (p ∷ ps) rt m ok' h =
    let target = p +ℤ s.cfg.https_offset in
    let rt' = (probe_http o p rt).1 in
    let found = put (key https target) (auto_want res p target) m in
    let rest = λ (q : ℤ) (n : Map Key Want) (i : mem q ps ≡ true). ok' q n (mem-tail q p ps i) in
    elim (Bool-cases (is_auto_candidate s p m)) [
      | inr skip ↦ rw skip (auto_wants-Each P o s res ps rt m rest h)
      | inl take ↦ rw take (elim (Bool-cases (probe_http o p rt).0) [
        | inr plain ↦ rw plain (auto_wants-Each P o s res ps rt' m rest h)
        | inl http ↦ rw http (
            auto_wants-Each P o s res ps rt' found rest (
              put-Each P (key https target) (auto_want res p target) m
                (ok' p m (mem-head p ps) take) h))
      ])
    ]

pub relay_wants-Each :
    (P : Key → Want → Type 0) (s : Service) (res : ScanResult) (ps : List ℤ) (m : Map Key Want)
    → ((p : ℤ) → mem p ps ≡ true → is_relayable s res p ≡ true → P (key relay p) (relay_want p))
    → Each P m
    → Each P (relay_wants s res ps m)
unfolding relay_wants
relay_wants-Each P s res [] m ok' h = h
relay_wants-Each P s res (p ∷ ps) m ok' h =
    let rest = λ (q : ℤ) (i : mem q ps ≡ true). ok' q (mem-tail q p ps i) in
    elim (Bool-cases (is_relayable s res p)) [
      | inr skip ↦ rw skip (relay_wants-Each P s res ps m rest h)
      | inl take ↦ rw take (
          relay_wants-Each P s res ps (put (key relay p) (relay_want p) m) rest
            (put-Each P (key relay p) (relay_want p) m (ok' p (mem-head p ps) take) h))
    ]
