-- ===== src/App/Leaving.antt =====
-- The server of the status query in a run of the daemon.
use nas_conn_plus.Base.{
  Str, ◌≡◌, subst, List, [], ◌∷◌, In, Option, none, some, true, false, Result, ok, err, arith,
}
use nas_conn_plus.Config.{Config}
use nas_conn_plus.Scanner.{ScanResult, Runtime}
use nas_conn_plus.Scanner.System.{scan_system}
use nas_conn_plus.Ipc.{default_socket_path}
use nas_conn_plus.Ipc.Server.{Server, Node, StartError, start_server, close_server}
use nas_conn_plus.Ipc.Server.Close.{IsOpen, start_server-IsOpen, close_server-quiet}
use nas_conn_plus.Cert.LocalCa.{World}
use nas_conn_plus.App.{
  Env, Daemon, Tick, Wake, ticked, done, after_refresh, after_scan, run_reconcile, leave_run,
  stop_server, main_loop, start_up, start_ipc, unless_failed, started, socket_path, run,
}

-- The server, if there is one, is closed and does not listen on its socket.
abbrev pub IsQuiet : Daemon → Type 0
IsQuiet d = (s : Server) → d.server ≡ some s → (s.closed ≡ true) × ¬ In s.path d.node.listening

abbrev pub IsRunning : Option Server → Type 0
IsRunning none = Unit {0}
IsRunning (some s) = s.closed ≡ false

unless_failed-IsRunning :
    (env : Env) (p : Result StartError Server × Node)
    → IsOpen env.ipc p.0
    → IsRunning (unless_failed p).0
unfolding unless_failed
unless_failed-IsRunning env (ok s, n) v = v
unless_failed-IsRunning env (err e, n) v = tt

is_some_eq : (r s : Server) → some r ≡ some s → r ≡ s
is_some_eq r s e = cc

stopped-IsQuiet :
    (env : Env) (o : Option Server) (n : Node) (s : Server)
    → IsRunning o
    → (stop_server env o n).0 ≡ some s
    → (s.closed ≡ true) × ¬ In s.path (stop_server env o n).1.listening
unfolding stop_server
stopped-IsQuiet env none n s v e = ground (arith, e)
stopped-IsQuiet env (some r) n s v e =
    let (closed', quiet) = close_server-quiet env.ipc r n v in
    let (x, r', n') = close_server env.ipc r n in
    subst (λ (y : Server). (y.closed ≡ true) × ¬ In y.path n'.listening) (is_some_eq r' s e)
      (closed', quiet)

still :
    (env : Env) (tick : Tick) (found : Result Str ScanResult) (d : Daemon)
    → IsRunning d.server
    → IsRunning (after_scan env tick found d).server
unfolding after_scan after_refresh
still env tick (err e) d v = v
still env tick (ok res) d v = v

main_loop-IsQuiet :
    (env : Env) (wakes : List Wake) (d : Daemon)
    → IsRunning d.server
    → (main_loop env wakes d).0 ≡ true
    → IsQuiet (main_loop env wakes d).1
unfolding main_loop leave_run run_reconcile
main_loop-IsQuiet env [] d v e = ground (arith, e)
main_loop-IsQuiet env (done ∷ wakes) d v e = λ s is. stopped-IsQuiet env d.server d.node s v is
main_loop-IsQuiet env (ticked tick ∷ wakes) d v e =
    main_loop-IsQuiet env wakes (run_reconcile env tick d)
      (still env tick (scan_system tick.seen d.owners).0
        (record d { owners = (scan_system tick.seen d.owners).1 }) v)
      e

pub run-IsQuiet :
    (env : Env) (cfg : Config) (rt : Runtime) (w : World) (first : Tick) (wakes : List Wake)
    → let (stopped, d) = run env cfg rt w first wakes in stopped ≡ true → IsQuiet d
unfolding run start_up started start_ipc
run-IsQuiet env cfg rt w first wakes e =
    main_loop-IsQuiet env (ticked first ∷ wakes) (start_up env cfg rt w).1
      (unless_failed-IsRunning env
        (start_server env.ipc
          (socket_path env.socket_flag (some cfg) (default_socket_path env.process)) env.names)
        (start_server-IsOpen env.ipc
          (socket_path env.socket_flag (some cfg) (default_socket_path env.process)) env.names))
      e
