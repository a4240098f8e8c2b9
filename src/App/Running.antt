-- ===== src/App/Running.antt =====
-- What holds in every run of the daemon, whatever the scans find and whatever fails.
use nas_conn_plus.Base.{
  ℕ, Str, ◌≡◌, ◌≢◌, refl, List, [], ◌∷◌, Option, none, Bool, true, false, get, distinct, Result, ok,
  err, arith,
}
use nas_conn_plus.Config.{Config}
use nas_conn_plus.Scanner.System.{scan_system}
use nas_conn_plus.Scanner.{Runtime, ScanResult}
use nas_conn_plus.Proxy.{Service, key_eq}
use nas_conn_plus.Proxy.Http.{new_service}
use nas_conn_plus.Proxy.Listen.{shutdown}
use nas_conn_plus.Proxy.Reconcile.{reconcile}
use nas_conn_plus.Proxy.Reconcile.Invariant.{Inv, reconcile-Inv}
use nas_conn_plus.Proxy.Sockets.{is_open, NoLeak, AllWork}
use nas_conn_plus.Proxy.Sockets.Polls.{reconcile-NoLeak}
use nas_conn_plus.Proxy.Sockets.Served.{reconcile-AllWork}
use nas_conn_plus.Proxy.Sockets.Shutdown.{shutdown-closed}
use nas_conn_plus.Cert.{KeyPair, get_certificate, serves, set_auto_trust, new_manager}
use nas_conn_plus.Cert.LocalCa.{World}
use nas_conn_plus.Cert.Refresh.Serves.{Loaded, refresh-Loaded}
use nas_conn_plus.Cert.Refresh.Always.{answers}
use nas_conn_plus.App.Leaving.{IsQuiet, run-IsQuiet}
use nas_conn_plus.App.{
  Env, Daemon, Tick, Wake, ticked, done, observe, after_refresh, after_scan, run_reconcile,
  main_loop, make_manager, start_up, started, leave_run, stop_server, run,
}

-- A service in order: its maps are, no socket is lost, and every socket that an entry holds is served.
pub record Safe (s : Service) : Type 0 where
  pub in_order : Inv s
  pub no_leak : NoLeak s
  pub work : AllWork s.listeners s.events

empty-Safe :
    (s : Service)
    → s.listeners ≡ []
    → s.missing ≡ []
    → ((n : ℕ) → is_open n s.events ≡ false)
    → Safe s
unfolding distinct get
empty-Safe s e f shut = record {
  in_order = record {
    one_each = ground (arith, e);
    entries = λ k. record {
      key_is = λ st at. ground (arith, e);
      socket = λ st at. ground (arith, e);
      counted_live = λ n at. ground (arith, e, f);
    };
  };
  no_leak = record {
    held = λ n up. ground (arith, shut n);
    is_live = λ k n at. ground (arith, e);
    one_key = λ j k n at at'. ground (arith, e);
    known = λ n up. ground (arith, shut n);
    quiet = λ k st at c. ground (arith, e);
  };
  work = λ k st n at ln. ground (arith, e);
}

observe-Safe :
    (elapsed : ℕ) (failed : Bool) (s : Service) → Safe s → Safe (observe elapsed failed s)
unfolding observe
observe-Safe elapsed failed s v = record {
  in_order = record {
    one_each = v.in_order.one_each;
    entries = λ k.
        let ok' = v.in_order.entries k in
        record { key_is = ok'.key_is; socket = ok'.socket; counted_live = ok'.counted_live };
  };
  no_leak = v.no_leak;
  work = v.work;
}

after_scan-Safe :
    (env : Env) (tick : Tick) (found : Result Str ScanResult) (d : Daemon)
    → Safe d.service
    → Safe (after_scan env tick found d).service
unfolding after_scan after_refresh
after_scan-Safe env tick (err e) d v = observe-Safe tick.elapsed true d.service v
after_scan-Safe env tick (ok res) d v =
    observe-Safe tick.elapsed false (reconcile env.host res d.service) (record {
      in_order = reconcile-Inv env.host res d.service v.in_order;
      no_leak = reconcile-NoLeak env.host res d.service v.no_leak;
      work = reconcile-AllWork env.host res d.service v.no_leak v.work;
    })

main_loop-Safe :
    (env : Env) (wakes : List Wake) (d : Daemon)
    → Safe d.service
    → Safe (main_loop env wakes d).1.service
      × ((main_loop env wakes d).0 ≡ true
          → (n : ℕ) → is_open n (main_loop env wakes d).1.service.events ≡ false)
unfolding main_loop run_reconcile leave_run stop_server shutdown
main_loop-Safe env [] d v = (v, λ e. ground arith)
main_loop-Safe env (done ∷ wakes) d v =
    let (shut, empty) = shutdown-closed d.service v.no_leak in
    (empty-Safe (shutdown d.service) empty refl shut, λ e. shut)
main_loop-Safe env (ticked tick ∷ wakes) d v = main_loop-Safe env wakes (run_reconcile env tick d) (
    after_scan-Safe env tick (scan_system tick.seen d.owners).0
      (record d { owners = (scan_system tick.seen d.owners).1 }) v)

-- In every run of the daemon, from a fresh service and with any outcome of the scans, the refreshes, the
-- probes and the binds: the maps of the service are in order, the open sockets are those that its entries
-- hold, each with the HTTP server or the accept loop of its kind on it, and once the main loop has returned no socket is open, and the server of the status query, if it was
-- started, is closed and listens no more.
pub run-Safe :
    (env : Env) (cfg : Config) (rt : Runtime) (w : World) (first : Tick) (wakes : List Wake)
    → let (stopped, d) = run env cfg rt w first wakes in
      Safe d.service × (stopped ≡ true → ((n : ℕ) → is_open n d.service.events ≡ false) × IsQuiet d)
unfolding run start_up started new_service is_open
run-Safe env cfg rt w first wakes =
    let (safe, shut) =
      main_loop-Safe env (ticked first ∷ wakes) (start_up env cfg rt w).1
        (empty-Safe (new_service cfg rt) refl refl (λ n. refl)) in
    (safe, λ e. (shut e, run-IsQuiet env cfg rt w first wakes e))

-- What a round does to the manager: a refresh, or nothing.
after_scan-Loaded :
    (env : Env) (tick : Tick) (found : Result Str ScanResult) (d : Daemon)
    → Loaded d.manager
    → Loaded (after_scan env tick found d).manager
      × (d.manager.cur ≢ none → (after_scan env tick found d).manager.cur ≢ none)
unfolding after_scan after_refresh
after_scan-Loaded env tick (err e) d v = (v, λ up. up)
after_scan-Loaded env tick (ok res) d v =
    let (loaded, stays, _) =
      refresh-Loaded env.crypto env.system d.manager (record (d.world) { disk = tick.disk }) v in
    (loaded, stays)

main_loop-cur :
    (env : Env) (wakes : List Wake) (d : Daemon)
    → Loaded d.manager
    → d.manager.cur ≢ none
    → (main_loop env wakes d).1.manager.cur ≢ none
unfolding main_loop run_reconcile leave_run
main_loop-cur env [] d v up = up
main_loop-cur env (done ∷ wakes) d v up = up
main_loop-cur env (ticked tick ∷ wakes) d v up =
    let (loaded, stays) =
      after_scan-Loaded env tick (scan_system tick.seen d.owners).0
        (record d { owners = (scan_system tick.seen d.owners).1 }) v in
    main_loop-cur env wakes (run_reconcile env tick d) loaded (stays up)

-- If the first refresh reports no error, every handshake during the run of the daemon gets a certificate,
-- whatever the later scans and refreshes find.
pub run-serves :
    (env : Env) (cfg : Config) (rt : Runtime) (w : World) (first : Tick) (wakes : List Wake)
    (acme : Option Str → Option KeyPair) (hello : Option Str)
    → (start_up env cfg rt w).0 ≡ none
    → (kc : KeyPair) × (get_certificate acme (run env cfg rt w first wakes).1.manager hello
        ≡ serves kc)
unfolding run start_up started make_manager set_auto_trust new_manager
run-serves env cfg rt w first wakes acme hello e =
    let (loaded, stays, up) =
      refresh-Loaded env.crypto env.system (make_manager w.disk cfg) w (λ h x. h (ground arith)) in
    answers acme _ hello
      (main_loop-cur env (ticked first ∷ wakes) (start_up env cfg rt w).1 loaded (up e))
