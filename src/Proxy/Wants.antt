-- ===== src/Proxy/Wants.antt =====
-- service.go `Reconcile`: the probe pass, and the listeners that the scan calls for.
pub mod Each
pub mod Justified
pub mod Sound
pub mod Complete
use nas_conn_plus.Base.{
  ℕ, ℤ, pos, ltb_ℤ, eqb_ℤ, ◌+ℤ◌, int_eq, Str, codes, itoa, is_empty, List, [], ◌∷◌, ◌++◌, Option,
  none, some, Bool, true, false, not, ◌&&◌, ◌||◌, Map, get, put, has, mem, if◌then◌else◌,
}
use nas_conn_plus.Config.{Config, HttpsPort}
use nas_conn_plus.Config.Policy.{is_excluded, is_relay_allowed, is_https_allowed}
use nas_conn_plus.Scanner.{ScanResult, Runtime}
use nas_conn_plus.Scanner.Prober.{Machine, probe_http, probe_ports, clean_probe_cache}
use nas_conn_plus.Proxy.{
  Kind, https, relay, Key, key, key_eq, Want, Service, is_our_listener_port, is_our_listener,
}

-- `s.cfg.HTTPSAuto != nil && *s.cfg.HTTPSAuto`.
abbrev pub https_auto_on : Config → Bool
https_auto_on c = elim c.https_auto [ none ↦ false | some b ↦ b ]

-- `for port := range ports { if test(port) { set[port] = true } }`.
unfoldable pub collect : (ℤ → Bool) → List ℤ → List ℤ → List ℤ
collect test [] set = set
collect test (p ∷ ps) set =
    collect test ps (if test p then (if mem p set then set else p ∷ set) else set)

-- The ports that are probed before the lock is taken.
unfoldable pub candidates : Service → ScanResult → List ℤ
candidates s res =
    let test = λ (p : ℤ). not (is_our_listener_port s p) && not (is_excluded (some s.cfg) p) in
    collect test res.v6_any (collect test res.v4_wild [])

-- `if len(portsToProbe) > 0 { scanner.ProbePorts(portsToProbe) }`.
unfoldable pub probe_all : Machine → List ℤ → Runtime → Runtime
unfolding probe_ports
probe_all o ports rt = (probe_ports o ports rt).1

unfoldable pub pre_pass : Machine → ScanResult → Service → Service
pre_pass o res s =
    let ports = candidates s res in
    let cleaned = record (s.runtime) {
      probe_cache = clean_probe_cache ports s.runtime.probe_cache;
    } in
    if https_auto_on s.cfg then record s { runtime = probe_all o ports cleaned } else s

unfoldable pub is_active : ScanResult → ℤ → Bool
unfolding mem
is_active res port = mem port res.v4_wild || mem port res.v6_any

unfoldable pub rule_want : HttpsPort → Want
rule_want p = record { kind = https; name = p.name; port = p.https; backend = p.http; tls = true }

-- 1. The explicit rules whose backend is up.
unfoldable pub explicit_wants : ScanResult → List HttpsPort → Map Key Want → Map Key Want
explicit_wants res [] wants = wants
explicit_wants res (p ∷ ps) wants =
    explicit_wants res ps
      (if is_active res p.http then put (key https p.https) (rule_want p) wants else wants)

unfoldable pub is_explicit_backend : ℤ → List HttpsPort → Bool
is_explicit_backend port [] = false
is_explicit_backend port (p ∷ ps) = eqb_ℤ p.http port || is_explicit_backend port ps

unfoldable pub is_upgradable : Service → ℤ → Bool
is_upgradable s p =
    (not (is_our_listener_port s p) || is_our_listener s relay p)
    && (not (is_excluded (some s.cfg) p) && is_https_allowed (some s.cfg) p)

unfoldable pub all_active_ports : Service → ScanResult → List ℤ
all_active_ports s res =
    collect (is_upgradable s) res.v6_any (collect (is_upgradable s) res.v4_wild [])

backend_name : ScanResult → ℤ → Str
unfolding itoa get
backend_name res port = elim (get port res.names) [
  | none ↦ codes "http-" ++ itoa port
  | some name ↦ if is_empty name then codes "http-" ++ itoa port else name
]

unfoldable pub auto_want : ScanResult → ℤ → ℤ → Want
unfolding backend_name
auto_want res port target = record {
  kind = https;
  name = backend_name res port ++ codes "-tls";
  port = target;
  backend = port;
  tls = true;
}

-- The `continue`s of the loop, up to the probe.
unfoldable pub is_auto_candidate : Service → ℤ → Map Key Want → Bool
is_auto_candidate s port wants =
    let target = port +ℤ s.cfg.https_offset in
    not (is_explicit_backend port s.cfg.https || not (is_https_allowed (some s.cfg) port))
    && (not (ltb_ℤ (pos 65535) target || is_excluded (some s.cfg) target)
        && (not (is_our_listener_port s target && not (is_our_listener s https target))
            && not (has (key https target) wants)))

-- 2. The HTTP services among the active ports. A probe changes the runtime; the service's maps stay.
unfoldable pub auto_wants :
    Machine → Service → ScanResult → List ℤ → Runtime → Map Key Want → Map Key Want × Runtime
auto_wants o s res [] rt wants = (wants, rt)
auto_wants o s res (p ∷ ps) rt wants =
    let target = p +ℤ s.cfg.https_offset in
    let (is_http, rt') = probe_http o p rt in
    let skipped = auto_wants o s res ps rt wants in
    let plain = auto_wants o s res ps rt' wants in
    let found = auto_wants o s res ps rt' (put (key https target) (auto_want res p target) wants) in
    if is_auto_candidate s p wants then (if is_http then found else plain) else skipped

unfoldable pub relay_want : ℤ → Want
unfolding itoa
relay_want p = record {
  kind = relay;
  name = codes "relay:" ++ itoa p;
  port = p;
  backend = p;
  tls = false;
}

unfoldable pub is_relayable : Service → ScanResult → ℤ → Bool
is_relayable s res p =
    not
      (is_excluded (some s.cfg) p || (not (is_relay_allowed (some s.cfg) p) || mem p res.v6_others))
    && not (is_our_listener_port s p && not (is_our_listener s relay p))

-- 3. The v4-only ports.
unfoldable pub relay_wants : Service → ScanResult → List ℤ → Map Key Want → Map Key Want
relay_wants s res [] wants = wants
relay_wants s res (p ∷ ps) wants =
    relay_wants s res ps
      (if is_relayable s res p then put (key relay p) (relay_want p) wants else wants)

unfoldable pub with_relays : Service → ScanResult → Map Key Want → Map Key Want
with_relays s res wants = if s.cfg.relay.auto then relay_wants s res res.v4_wild wants else wants

-- 1 and 2, with the runtime that the probes leave.
unfoldable pub found_wants : Machine → Service → ScanResult → Map Key Want × Runtime
found_wants o s res =
    let explicit = explicit_wants res s.cfg.https [] in
    if https_auto_on s.cfg
    then auto_wants o s res (all_active_ports s res) s.runtime explicit
    else (explicit, s.runtime)

-- All three.
unfoldable pub build_wants : Machine → Service → ScanResult → Map Key Want × Runtime
build_wants o s res = let (wants, rt) = found_wants o s res in (with_relays s res wants, rt)
