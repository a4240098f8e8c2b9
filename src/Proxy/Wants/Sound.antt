-- ===== src/Proxy/Wants/Sound.antt =====
-- Everything that `Reconcile` wants is justified.
use nas_conn_plus.Base.{
  ℤ, ◌+ℤ◌, eqb_ℤ_iff, int_eq, ◌≡◌, ◌≢◌, refl, ap, inl, inr, List, [], ◌∷◌, some, true, false, Map,
  get, mem, In, Bool-cases, arith,
}
use nas_conn_plus.Config.{HttpsPort}
use nas_conn_plus.Scanner.{ScanResult}
use nas_conn_plus.Scanner.Prober.{Machine}
use nas_conn_plus.Proxy.{https, relay, Key, key, key_eq, Want, Service}
use nas_conn_plus.Proxy.Wants.{
  collect, is_active, rule_want, explicit_wants, is_explicit_backend, is_upgradable,
  all_active_ports, auto_want, is_auto_candidate, relay_want, is_relayable, with_relays,
  https_auto_on, found_wants, build_wants,
}
use nas_conn_plus.Proxy.Wants.Justified.{IsUp, Justified}
use nas_conn_plus.Proxy.Wants.Each.{
  mem-collect, Each, explicit_wants-Each, auto_wants-Each, relay_wants-Each,
}

is_active-IsUp : (res : ScanResult) (p : ℤ) → is_active res p ≡ true → IsUp res p
unfolding is_active
is_active-IsUp res p h = ground arith

rule-Justified :
    (s : Service) (res : ScanResult) (r : HttpsPort)
    → In r s.cfg.https
    → is_active res r.http ≡ true
    → Justified s res (key https r.https) (rule_want r)
unfolding rule_want
rule-Justified s res r i up = inl (record {
  rule = r;
  listed = i;
  up = is_active-IsUp res r.http up;
  key_is = refl;
  kind = refl;
  port = refl;
  backend = refl;
})

is_explicit_backend-In :
    (p : ℤ) (rules : List HttpsPort)
    → is_explicit_backend p rules ≡ false
    → (r : HttpsPort) → In r rules
    → r.http ≢ p
unfolding is_explicit_backend
is_explicit_backend-In p [] h r i = elim i [ ]
is_explicit_backend-In p (x ∷ xs) h r (inl e) =
    λ same. ground (arith, eqb_ℤ_iff x.http p, ap (λ (y : HttpsPort). y.http) e)
is_explicit_backend-In p (x ∷ xs) h r (inr i) = is_explicit_backend-In p xs (ground arith) r i

upgrade-Justified :
    (s : Service) (res : ScanResult) (p : ℤ) (n : Map Key Want)
    → mem p (all_active_ports s res) ≡ true
    → is_auto_candidate s p n ≡ true
    → Justified s res
        (key https (p +ℤ s.cfg.https_offset))
        (auto_want res p (p +ℤ s.cfg.https_offset))
unfolding auto_want all_active_ports is_upgradable is_auto_candidate mem
upgrade-Justified s res p n m c =
    let test = is_upgradable s in
    let target = p +ℤ s.cfg.https_offset in
    let inner = mem-collect p test res.v4_wild [] in
    let outer = mem-collect p test res.v6_any (collect test res.v4_wild []) in
    inr (
      inl (record {
        key_is = refl;
        kind = refl;
        target = refl;
        in_range = ground arith;
        up = ground (arith, inner, outer);
        backend_open = ground (arith, inner, outer);
        target_open = ground arith;
        allowed = ground (arith, inner, outer);
        no_rule = is_explicit_backend-In p s.cfg.https (ground arith);
        not_ours = ground (arith, inner, outer);
        target_free = ground arith;
      }))

mirror-Justified :
    (s : Service) (res : ScanResult) (p : ℤ)
    → mem p res.v4_wild ≡ true
    → is_relayable s res p ≡ true
    → Justified s res (key relay p) (relay_want p)
unfolding relay_want is_relayable
mirror-Justified s res p m r = inr (
    inr (record {
      key_is = refl;
      kind = refl;
      backend = refl;
      v4 = m;
      no_v6 = ground arith;
      open_port = ground arith;
      allowed = ground arith;
      not_ours = ground arith;
    }))

with_relays-Each :
    (P : Key → Want → Type 0) (s : Service) (res : ScanResult) (m : Map Key Want)
    → ((p : ℤ)
        → mem p res.v4_wild ≡ true
        → is_relayable s res p ≡ true
        → P (key relay p) (relay_want p))
    → Each P m
    → Each P (with_relays s res m)
unfolding with_relays
with_relays-Each P s res m ok' h = elim (Bool-cases s.cfg.relay.auto) [
  | inl on ↦ simp on (relay_wants-Each P s res res.v4_wild m ok' h)
  | inr off ↦ simp off h
]

not-get-nil : (k : Key) (w : Want) → ¬ (get {V = Want} k [] ≡ some w)
unfolding get
not-get-nil k w e = cc

explicit-Each :
    (s : Service) (res : ScanResult) → Each (Justified s res) (explicit_wants res s.cfg.https [])
explicit-Each s res =
    explicit_wants-Each (Justified s res) res s.cfg.https [] (λ r i up. rule-Justified s res r i up)
      (λ k w e. absurd (not-get-nil k w e))

found-Each :
    (o : Machine) (s : Service) (res : ScanResult) → Each (Justified s res) (found_wants o s res).0
unfolding found_wants
found-Each o s res = elim (Bool-cases (https_auto_on s.cfg)) [
  | inr off ↦ rw off (explicit-Each s res)
  | inl on ↦ rw on (
      auto_wants-Each (Justified s res) o s res (all_active_ports s res) s.runtime _
        (λ p n m c. upgrade-Justified s res p n m c) (explicit-Each s res))
]

-- Every listener that a poll wants follows from a rule of the settings whose backend is up, or is the
-- upgrade of an allowed port, or mirrors an allowed IPv4-only port. Neither port of an upgrade and no
-- mirrored port is excluded, and the service neither upgrades nor mirrors a port on which it serves
-- HTTPS itself.
pub build_wants-Justified :
    (o : Machine) (s : Service) (res : ScanResult) (k : Key) (w : Want)
    → get k (build_wants o s res).0 ≡ some w
    → Justified s res k w
unfolding build_wants
build_wants-Justified o s res =
    with_relays-Each (Justified s res) s res _ (mirror-Justified s res) (found-Each o s res)
