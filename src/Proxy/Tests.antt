-- ===== src/Proxy/Tests.antt =====
-- A small machine: HTTP on 8080 and SSH on 22, both on 0.0.0.0. The theorems are applied to it.
use nas_conn_plus.Base.{
  ◌≡◌, refl, pos, ◌+ℤ◌, codes, str_beq, has_prefix, contains, fields, join, atoi, to_lower, itoa,
  [], ◌∷◌, none, some, true, false, get, put, delete, mem, keys, int_eq, distinct, arith,
}
use nas_conn_plus.Config.{HttpsPort}
use nas_conn_plus.Config.Tests.{settings}
use nas_conn_plus.Proxy.{Want}
use nas_conn_plus.Proxy.Wants.Justified.{Justified}
use nas_conn_plus.Proxy.Wants.Sound.{build_wants-Justified}
use nas_conn_plus.Proxy.Wants.Complete.{build_wants-relay}
use nas_conn_plus.Proxy.Reconcile.Invariant.{Inv, wants_of, reconcile-Inv}
use nas_conn_plus.Proxy.Sockets.{is_open, NoLeak}
use nas_conn_plus.Proxy.Sockets.Polls.{reconcile-NoLeak}
use nas_conn_plus.Proxy.Reconcile.Cases.{Busy}
use nas_conn_plus.Proxy.Life.{Edge, slot, yields}
use nas_conn_plus.Proxy.Life.Refines.{reconcile-Edge}
use nas_conn_plus.Config.Policy.{is_excluded, is_relay_allowed, is_https_allowed}
use nas_conn_plus.Metrics.{observe_probe}
use nas_conn_plus.Scanner.{ScanResult, Exchange}
use nas_conn_plus.Scanner.Prober.{probe_http, probe_ports, clean_probe_cache}
use nas_conn_plus.Proxy.{
  https, relay, Service, is_our_listener_port, is_our_listener, key_beq, key_eq,
}
use nas_conn_plus.Proxy.Listen.{Host, try_listen, conflict_state, start_serving, stop_listener}
use nas_conn_plus.Proxy.Wants.{
  pre_pass, found_wants, build_wants, with_relays, explicit_wants, auto_wants, relay_wants,
  all_active_ports, is_upgradable, is_auto_candidate, is_relayable, candidates, collect, probe_all,
  rule_want, auto_want, relay_want, is_explicit_backend, is_active,
}
use nas_conn_plus.Proxy.Reconcile.{
  adopt, remember_conflict, start_result, start_new, start_all, unwanted, retry_result, wanted,
  maintain, maintain_key, maintain_all, reconcile_locked, reconcile, warn, log_serving, should_warn,
  forget, stop, missed,
}

abbrev speaks_http : Exchange
speaks_http = record {
  tls_ok = false;
  dial_ok = true;
  write_ok = true;
  reply = some (codes "HTTP/1.1 200 OK\r\n\r\n");
}

-- The clock shows a second more at each call, and every port can be bound.
abbrev pub host : Host
host = record {
  machine = record { now = λ n. n; exchange = λ _ _ _. speaks_http };
  bind = λ _ _ _. none;
}

-- Every bind fails.
abbrev busy_host : Host
busy_host = record {
  machine = record { now = λ n. n; exchange = λ _ _ _. speaks_http };
  bind = λ _ _ _. some (codes "address already in use");
}

abbrev pub idle : Service
idle = record {
  cfg = settings;
  listeners = [];
  missing = [];
  warned_conflict = [];
  runtime = record {
    probe_cache = [];
    metrics = record {
      reconciles = 0;
      reconcile_errors = 0;
      last_reconcile_ms = 0;
      probes = 0;
      probe_http = 0;
    };
    calls = 0;
  };
  events = [];
}

abbrev pub scan : ScanResult
scan = record {
  v4_wild = pos 8080 ∷ pos 22 ∷ [];
  v6_any = [];
  v6_others = [];
  pids = [];
  names = [];
}

-- One poll of `reconcile`, with all that it calls opened.
poll : Host → ScanResult → Service → Service
unfolding reconcile reconcile_locked pre_pass found_wants build_wants with_relays explicit_wants
    auto_wants relay_wants all_active_ports is_upgradable is_auto_candidate is_relayable candidates
    collect probe_all rule_want auto_want relay_want is_explicit_backend adopt remember_conflict
    start_result start_new start_all unwanted retry_result wanted maintain maintain_key maintain_all
    warn log_serving is_active should_warn forget stop missed try_listen conflict_state
    start_serving stop_listener is_our_listener_port is_our_listener is_excluded is_relay_allowed
    is_https_allowed mem get put delete probe_http probe_ports clean_probe_cache observe_probe
    has_prefix contains fields join atoi to_lower itoa str_beq ◌+ℤ◌ key_beq
poll = reconcile

polled_keys : keys (poll host scan idle).listeners ≡ (https, pos 8081) ∷ (relay, pos 8080) ∷ []
unfolding poll
polled_keys = refl

abbrev scan_5000 : ScanResult
scan_5000 = record scan { v4_wild = pos 5000 ∷ [] }

pub idle-Inv : Inv idle
unfolding distinct get
idle-Inv = record {
  one_each = refl;
  entries = λ k. record {
    key_is = λ st e. ground arith;
    socket = λ st e. ground arith;
    counted_live = λ n e. ground arith;
  };
}

abbrev rule : HttpsPort
rule = record { name = codes "nas"; http = pos 5000; https = pos 5001 }

abbrev pub relay_8080 : Want
relay_8080 = record {
  kind = relay;
  name = codes "relay";
  port = pos 8080;
  backend = pos 8080;
  tls = false;
}

reconcile-Inv_example : Inv (reconcile host scan idle)
reconcile-Inv_example = reconcile-Inv host scan idle idle-Inv

reconcile-Edge_example :
    Edge
      (Busy host idle.runtime.calls (reconcile host scan idle).runtime.calls)
      (get (relay, pos 8080) (wants_of host scan (pre_pass host.machine scan idle)))
      (yields scan (relay, pos 8080))
      settings.grace_polls
      (slot (relay, pos 8080) idle)
      (slot (relay, pos 8080) (reconcile host scan idle))
reconcile-Edge_example = reconcile-Edge host scan idle (relay, pos 8080) idle-Inv

relay_wanted :
    get (relay, pos 8080) (build_wants host.machine idle scan).0 ≡ some (relay_want (pos 8080))
unfolding is_excluded is_relay_allowed mem str_beq is_our_listener_port
relay_wanted =
    build_wants-relay host.machine idle scan (pos 8080) refl refl (λ e. ground arith) refl refl
      (λ h. ground arith)

build_wants-Justified_example : Justified idle scan (relay, pos 8080) (relay_want (pos 8080))
build_wants-Justified_example =
    build_wants-Justified host.machine idle scan (relay, pos 8080) (relay_want (pos 8080))
      relay_wanted

idle-NoLeak : NoLeak idle
unfolding is_open get
idle-NoLeak = record {
  held = λ n e. ground arith;
  is_live = λ k n e. ground arith;
  one_key = λ j k n e f. ground arith;
  known = λ n e. ground arith;
  quiet = λ k st e c. ground arith;
}

reconcile-NoLeak_example : NoLeak (reconcile host scan idle)
reconcile-NoLeak_example = reconcile-NoLeak host scan idle idle-NoLeak
