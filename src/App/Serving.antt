-- ===== src/App/Serving.antt =====
-- The daemon serves what its settings and a scan call for, and gives up what they no longer call for.
pub mod Tests
use nas_conn_plus.Base.{
  ℤ, Str, ◌≡◌, refl, sym, ap, subst, ◌∙◌, List, [], ◌∷◌, some, Bool, true, false, distinct, int_eq,
  Result, ok, err, arith,
}
use nas_conn_plus.Config.{Config}
use nas_conn_plus.Config.Load.{finish, seal, set_defaults}
use nas_conn_plus.Config.Load.Spec.{IsAcceptable, targets}
use nas_conn_plus.Config.Load.Finish.{finish_accepts, finish-eq-ok}
use nas_conn_plus.Scanner.{ScanResult, Runtime}
use nas_conn_plus.Scanner.System.{scan_system}
use nas_conn_plus.Cert.LocalCa.{World}
use nas_conn_plus.Proxy.{Key, Service}
use nas_conn_plus.Proxy.Http.{new_service}
use nas_conn_plus.Proxy.Reconcile.{reconcile}
use nas_conn_plus.Proxy.Reconcile.Settings.{reconcile-cfg}
use nas_conn_plus.Proxy.Life.{slot}
use nas_conn_plus.Proxy.Life.Serves.{IsFree, HasRoom, Demanded, Served, reconcile-Served}
use nas_conn_plus.App.{
  Env, Daemon, Tick, Wake, ticked, done, observe, after_refresh, after_scan, run_reconcile,
  main_loop, start_up, started, run,
}
use nas_conn_plus.App.Running.{Safe, run-Safe}

-- Settings that `LoadConfig` has accepted name each target once.
finish-targets : (raw cfg : Config) → finish raw ≡ ok cfg → distinct (targets cfg.https) ≡ true
unfolding seal set_defaults
finish-targets raw cfg e =
    let accepted = (finish_accepts raw).0 (cfg, e) in
    let (_, same) = finish-eq-ok raw cfg e in
    subst (λ (c : Config). distinct (targets c.https) ≡ true) same accepted.one_rule_each

after_scan-cfg :
    (env : Env) (tick : Tick) (found : Result Str ScanResult) (d : Daemon)
    → (after_scan env tick found d).service.cfg ≡ d.service.cfg
unfolding after_scan after_refresh observe
after_scan-cfg env tick (err e) d = refl
after_scan-cfg env tick (ok res) d = reconcile-cfg env.host res d.service

main_loop-cfg :
    (env : Env) (wakes : List Wake) (d : Daemon)
    → (main_loop env wakes d).0 ≡ false
    → (main_loop env wakes d).1.service.cfg ≡ d.service.cfg
unfolding main_loop run_reconcile
main_loop-cfg env [] d up = refl
main_loop-cfg env (done ∷ wakes) d up = cc
main_loop-cfg env (ticked tick ∷ wakes) d up =
    main_loop-cfg env wakes (run_reconcile env tick d) up
    ∙ after_scan-cfg env tick (scan_system tick.seen d.owners).0
        (record d { owners = (scan_system tick.seen d.owners).1 })

run-cfg :
    (env : Env) (cfg : Config) (rt : Runtime) (w : World) (first : Tick) (wakes : List Wake)
    → (run env cfg rt w first wakes).0 ≡ false
    → (run env cfg rt w first wakes).1.service.cfg ≡ cfg
unfolding run start_up started new_service
run-cfg env cfg rt w first wakes up =
    main_loop-cfg env (ticked first ∷ wakes) (start_up env cfg rt w).1 up

-- A round whose scan succeeds is a poll.
run_reconcile-Served :
    (env : Env) (tick : Tick) (res : ScanResult) (d : Daemon) (k : Key) (backend : ℤ)
    → (scan_system tick.seen d.owners).0 ≡ ok res
    → Served k backend (reconcile env.host res d.service)
    → Served k backend (run_reconcile env tick d).service
unfolding run_reconcile after_scan after_refresh observe slot
run_reconcile-Served env tick res d k backend e v = rw e (record {
  st = v.st;
  socket = v.socket;
  at = v.at;
  listener = v.listener;
  key_is = v.key_is;
  backend_is = v.backend_is;
  ln = v.ln;
  is_up = v.is_up;
  works = v.works;
})

run_reconcile-calls :
    (env : Env) (tick : Tick) (res : ScanResult) (d : Daemon)
    → (scan_system tick.seen d.owners).0 ≡ ok res
    → (run_reconcile env tick d).service.runtime.calls
      ≡ (reconcile env.host res d.service).runtime.calls
unfolding run_reconcile after_scan after_refresh observe
run_reconcile-calls env tick res d e = rw e refl

-- With settings that `LoadConfig` has accepted, and whatever the daemon has been through, as long as it runs:
-- the next round whose scan succeeds leaves every key that the settings and the scan call for with a listener of
-- its kind and port for the backend called for, on an open socket, with the HTTP server or the accept loop running
-- on it, and not counted as missing. The conditions are that the calls of this round can bind the port, whatever
-- earlier ones found, and that no listener for another backend holds the key before the round.
pub run-Served :
    (env : Env) (raw cfg : Config) (rt : Runtime) (w : World) (first : Tick) (wakes : List Wake)
    (tick : Tick) (res : ScanResult) (k : Key) (backend : ℤ)
    → finish raw ≡ ok cfg
    → (run env cfg rt w first wakes).0 ≡ false
    → let d = (run env cfg rt w first wakes).1 in
      let d' = run_reconcile env tick d in
      (scan_system tick.seen d.owners).0 ≡ ok res
      → Demanded d.service res k backend
      → IsFree env.host k d.service.runtime.calls d'.service.runtime.calls
      → HasRoom backend (slot k d.service)
      → Served k backend d'.service
run-Served env raw cfg rt w first wakes tick res k backend accepted up found called free room =
    let d = (run env cfg rt w first wakes).1 in
    let safe = (run-Safe env cfg rt w first wakes).0 in
    run_reconcile-Served env tick res d k backend found (
      reconcile-Served env.host res d.service k backend safe.in_order safe.no_leak safe.work
        (subst (λ (c : Config). distinct (targets c.https) ≡ true)
          (sym (run-cfg env cfg rt w first wakes up)) (finish-targets raw cfg accepted))
        called
        (subst (IsFree env.host k d.service.runtime.calls)
          (run_reconcile-calls env tick res d found) free)
        room)
