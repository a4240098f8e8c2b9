-- ===== src/Proxy/Wants/Complete.antt =====
-- What `Reconcile` cannot fail to want: the explicit rules, ahead of all upgrades, and the mirrors.
use nas_conn_plus.Base.{
  ℤ, ◌+ℤ◌, eqb_ℤ_iff, int_eq, ◌≡◌, refl, sym, ap, ◌∙◌, ◌⊎◌, inl, inr, List, [], ◌∷◌, some, true,
  false, Map, get, put, get-put, get-put_self, mem, distinct, In, arith,
}
use nas_conn_plus.Config.{HttpsPort}
use nas_conn_plus.Config.Policy.{is_relay_allowed}
use nas_conn_plus.Config.Load.Spec.{targets}
use nas_conn_plus.Scanner.{ScanResult, Runtime}
use nas_conn_plus.Scanner.Prober.{Machine, probe_http}
use nas_conn_plus.Proxy.{
  https, relay, Key, key, key_eq, key_beq, key_beq_iff, Want, Service, is_our_listener_port,
  is_our_listener,
}
use nas_conn_plus.Proxy.Wants.{
  is_active, rule_want, explicit_wants, all_active_ports, auto_want, is_auto_candidate, auto_wants,
  relay_want, is_relayable, relay_wants, with_relays, found_wants, build_wants,
}
use nas_conn_plus.Proxy.Wants.Justified.{IsUp, Excluded}

explicit_wants-other :
    (res : ScanResult) (t : ℤ) (rules : List HttpsPort) (m : Map Key Want)
    → mem t (targets rules) ≡ false
    → get (https, t) (explicit_wants res rules m) ≡ get (https, t) m
unfolding explicit_wants mem key_beq
explicit_wants-other res t [] m h = refl
explicit_wants-other res t (r ∷ rs) m h = ground (
  arith,
  explicit_wants-other res t rs m,
  explicit_wants-other res t rs (put (key https r.https) (rule_want r) m),
  get-put (key https r.https) (https, t) (rule_want r) m,
  eqb_ℤ_iff t r.https,
  eqb_ℤ_iff r.https t,
)

explicit_wants-rule :
    (res : ScanResult) (r : HttpsPort) (rules : List HttpsPort) (m : Map Key Want)
    → In r rules
    → distinct (targets rules) ≡ true
    → is_active res r.http ≡ true
    → get (https, r.https) (explicit_wants res rules m) ≡ some (rule_want r)
unfolding explicit_wants distinct
explicit_wants-rule res r [] m i d up = elim i [ ]
explicit_wants-rule res r (x ∷ xs) m (inr i) d up =
    explicit_wants-rule res r xs _ i (ground arith) up
explicit_wants-rule res r (x ∷ xs) m (inl e) d up =
    rw (ap (λ (y : HttpsPort). is_active res y.http) (sym e) ∙ up, e)
      (explicit_wants-other res x.https xs _ (ground arith)
        ∙ get-put_self (key https x.https) (rule_want x) m)

-- An upgrade never replaces a want.
auto_wants-kept :
    (o : Machine) (s : Service) (res : ScanResult) (k : Key) (w : Want) (ps : List ℤ) (rt : Runtime)
    (m : Map Key Want)
    → get k m ≡ some w
    → get k (auto_wants o s res ps rt m).0 ≡ some w
unfolding auto_wants is_auto_candidate
auto_wants-kept o s res k w [] rt m e = e
auto_wants-kept o s res k w (p ∷ ps) rt m e =
    let target = p +ℤ s.cfg.https_offset in
    let rt' = (probe_http o p rt).1 in
    ground (
      arith,
      auto_wants-kept o s res k w ps rt m,
      auto_wants-kept o s res k w ps rt' m,
      auto_wants-kept o s res k w ps rt' (put (key https target) (auto_want res p target) m),
      get-put (key https target) k (auto_want res p target) m,
      key_beq_iff (key https target) k,
    )

relay_wants-https :
    (s : Service) (res : ScanResult) (t : ℤ) (ps : List ℤ) (m : Map Key Want)
    → get (https, t) (relay_wants s res ps m) ≡ get (https, t) m
unfolding relay_wants key_beq
relay_wants-https s res t [] m = refl
relay_wants-https s res t (p ∷ ps) m = ground (
  arith,
  relay_wants-https s res t ps m,
  relay_wants-https s res t ps (put (key relay p) (relay_want p) m),
  get-put (key relay p) (https, t) (relay_want p) m,
)

relay_wants-relay :
    (s : Service) (res : ScanResult) (q : ℤ) (ps : List ℤ) (m : Map Key Want)
    → is_relayable s res q ≡ true
    → (mem q ps ≡ true) ⊎ (get (relay, q) m ≡ some (relay_want q))
    → get (relay, q) (relay_wants s res ps m) ≡ some (relay_want q)
unfolding relay_wants mem key_beq
relay_wants-relay s res q [] m t (inl h) = cc
relay_wants-relay s res q [] m t (inr h) = h
relay_wants-relay s res q (p ∷ ps) m t h =
    let m' = put (key relay p) (relay_want p) m in
    ground (
      arith,
      relay_wants-relay s res q ps m t,
      relay_wants-relay s res q ps m' t,
      get-put (key relay p) (relay, q) (relay_want p) m,
      eqb_ℤ_iff q p,
      eqb_ℤ_iff p q,
    )

found_wants-kept :
    (o : Machine) (s : Service) (res : ScanResult) (k : Key) (w : Want)
    → get k (explicit_wants res s.cfg.https []) ≡ some w
    → get k (found_wants o s res).0 ≡ some w
unfolding found_wants
found_wants-kept o s res k w e = ground (
  arith,
  auto_wants-kept o s res k w (all_active_ports s res) s.runtime (explicit_wants res s.cfg.https [])
      e,
)

with_relays-https :
    (s : Service) (res : ScanResult) (t : ℤ) (m : Map Key Want)
    → get (https, t) (with_relays s res m) ≡ get (https, t) m
unfolding with_relays
with_relays-https s res t m = ground (arith, relay_wants-https s res t res.v4_wild m)

IsUp-is_active : (res : ScanResult) (p : ℤ) → IsUp res p → is_active res p ≡ true
unfolding is_active
IsUp-is_active res p h = ground arith

-- A rule whose backend is up is wanted as it is written, whatever the upgrades and the mirrors are,
-- when no two rules have one target.
pub build_wants-rule :
    (o : Machine) (s : Service) (res : ScanResult) (r : HttpsPort)
    → In r s.cfg.https
    → distinct (targets s.cfg.https) ≡ true
    → IsUp res r.http
    → get (https, r.https) (build_wants o s res).0 ≡ some (rule_want r)
unfolding build_wants
build_wants-rule o s res r i d up =
    with_relays-https s res r.https _
    ∙ found_wants-kept o s res (https, r.https) (rule_want r)
        (explicit_wants-rule res r s.cfg.https [] i d (IsUp-is_active res r.http up))

-- With automatic relays on, every IPv4 wildcard port is wanted as a relay that is not excluded, is
-- allowed, has no foreign IPv6 listener, and is not taken by an HTTPS listener of the service.
pub build_wants-relay :
    (o : Machine) (s : Service) (res : ScanResult) (p : ℤ)
    → s.cfg.relay.auto ≡ true
    → mem p res.v4_wild ≡ true
    → ¬ Excluded s p
    → is_relay_allowed (some s.cfg) p ≡ true
    → mem p res.v6_others ≡ false
    → (is_our_listener_port s p ≡ true → is_our_listener s relay p ≡ true)
    → get (relay, p) (build_wants o s res).0 ≡ some (relay_want p)
unfolding build_wants with_relays is_relayable
build_wants-relay o s res p on v4 open_port allowed no_v6 free =
    ground (arith, relay_wants-relay s res p res.v4_wild (found_wants o s res).0)
