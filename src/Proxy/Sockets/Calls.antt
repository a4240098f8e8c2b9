-- ===== src/Proxy/Sockets/Calls.antt =====
-- A call is never numbered twice: the probes of a poll only count on.
use nas_conn_plus.Base.{suc, ◌≤◌, List, [], ◌∷◌, Map, put, arith, ℤ, ◌+ℤ◌}
use nas_conn_plus.Scanner.{ScanResult, Runtime}
use nas_conn_plus.Scanner.Prober.{
  clean_probe_cache, Machine, is_http_service, probe_and_store, probe_http, probe_ports,
}
use nas_conn_plus.Proxy.{https, Key, key, key_eq, Want, Service}
use nas_conn_plus.Proxy.Wants.{
  explicit_wants, all_active_ports, auto_wants, auto_want, found_wants, build_wants, candidates,
  probe_all, pre_pass,
}

is_http_service-calls :
    (o : Machine) (p : ℤ) (rt : Runtime) → rt.calls ≤ (is_http_service o p rt).1.calls
unfolding is_http_service
is_http_service-calls o p rt = ground arith

probe_and_store-calls :
    (o : Machine) (p : ℤ) (rt : Runtime) → rt.calls ≤ (probe_and_store o p rt).1.calls
unfolding probe_and_store
probe_and_store-calls o p rt = ground (arith, is_http_service-calls o p rt)

probe_http-calls : (o : Machine) (p : ℤ) (rt : Runtime) → rt.calls ≤ (probe_http o p rt).1.calls
unfolding probe_http
probe_http-calls o p rt = ground (
  arith,
  probe_and_store-calls o p rt,
  probe_and_store-calls o p (record rt { calls = suc rt.calls }),
)

pub probe_ports-calls :
    (o : Machine) (ps : List ℤ) (rt : Runtime) → rt.calls ≤ (probe_ports o ps rt).1.calls
unfolding probe_ports
probe_ports-calls o [] rt = omega arith
probe_ports-calls o (p ∷ ps) rt =
    omega (arith, probe_http-calls o p rt, probe_ports-calls o ps (probe_http o p rt).1)

auto_wants-calls :
    (o : Machine) (s : Service) (res : ScanResult) (ps : List ℤ) (rt : Runtime)
    (wants : Map Key Want)
    → rt.calls ≤ (auto_wants o s res ps rt wants).1.calls
unfolding auto_wants
auto_wants-calls o s res [] rt wants = omega arith
auto_wants-calls o s res (p ∷ ps) rt wants =
    let rt' = (probe_http o p rt).1 in
    let target = p +ℤ s.cfg.https_offset in
    ground (
      arith,
      probe_http-calls o p rt,
      auto_wants-calls o s res ps rt wants,
      auto_wants-calls o s res ps rt' wants,
      auto_wants-calls o s res ps rt' (put (key https target) (auto_want res p target) wants),
    )

pub build_wants-calls :
    (o : Machine) (s : Service) (res : ScanResult) → s.runtime.calls ≤ (build_wants o s res).1.calls
unfolding build_wants found_wants
build_wants-calls o s res = ground (
  arith,
  auto_wants-calls o s res (all_active_ports s res) s.runtime (explicit_wants res s.cfg.https []),
)

pub pre_pass-calls :
    (o : Machine) (res : ScanResult) (s : Service)
    → s.runtime.calls ≤ (pre_pass o res s).runtime.calls
unfolding pre_pass probe_all
pre_pass-calls o res s =
    let ports = candidates s res in
    ground (
      arith,
      probe_ports-calls o ports
          (record (s.runtime) { probe_cache = clean_probe_cache ports s.runtime.probe_cache }),
    )

-- The probes of a poll, before anything is bound.
pub probed-calls :
    (o : Machine) (res : ScanResult) (s : Service)
    → s.runtime.calls ≤ (build_wants o (pre_pass o res s) res).1.calls
probed-calls o res s =
    omega (arith, pre_pass-calls o res s, build_wants-calls o (pre_pass o res s) res)
