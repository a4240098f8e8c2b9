-- ===== src/App.antt =====
-- internal/app/app.go: the daemon. Its parts are those of the other modules; what happens outside between
-- two wakings is a parameter of each.
pub mod Arguments
pub mod Running
pub mod Notes
pub mod Serving
pub mod Debug
pub mod Modes
pub mod Diagnosis
pub mod Reported
pub mod Leaving
pub mod Tests
use nas_conn_plus.Base.{
  pos, ◌/◌, ℕ, Str, codes, List, [], ◌∷◌, Option, none, some, Bool, true, false, not, ◌||◌, str_beq,
  is_empty, Result, ok, err, if◌then◌else◌,
}
use nas_conn_plus.Files.{Disk}
use nas_conn_plus.Metrics.{observe_reconcile}
use nas_conn_plus.Config.{Config}
use nas_conn_plus.Scanner.{ScanResult, Runtime}
use nas_conn_plus.Scanner.Owners.{Owners}
use nas_conn_plus.Scanner.System.{System, scan_system}
use nas_conn_plus.Proxy.{Service}
use nas_conn_plus.Proxy.Http.{new_service}
use nas_conn_plus.Proxy.Listen.{Host, shutdown, get_metrics_snapshot}
use nas_conn_plus.Ipc.{StatusReport, Process, default_socket_path}
use nas_conn_plus.Ipc.Server.{Os, Node, Server, StartError, start_server, close_server}
use nas_conn_plus.Proxy.Reconcile.{reconcile}
use nas_conn_plus.Cert.{Manager, CertError, new_manager, set_auto_trust}
use nas_conn_plus.Cert.LocalCa.{World, Crypto}
use nas_conn_plus.Cert.Trust
use nas_conn_plus.Cert.Refresh.{refresh}

-- What the machine offers to the daemon: the last fields are what the server of the status query asks for,
-- the flag `-socket`, and the names of the file system at the start.
pub record Env : Type 0 where
  pub host : Host
  pub crypto : Crypto
  pub system : Trust.System
  pub ipc : Os
  pub process : Process
  pub socket_flag : Str
  pub names : Node

pub record Daemon : Type 0 where
  pub manager : Manager
  pub service : Service
  pub world : World
  pub server : Option Server
  pub node : Node
  pub owners : Owners

-- What a tick of the poll timer finds: what `scanner.Scan` sees, the time that the round takes, and the
-- disk, which others change between the rounds.
pub record Tick : Type 0 where
  pub seen : System
  pub elapsed : ℕ
  pub disk : Disk

unfoldable pub observe : ℕ → Bool → Service → Service
observe elapsed failed s = record s {
  runtime = record (s.runtime) { metrics = observe_reconcile elapsed failed s.runtime.metrics };
}

after_refresh : Env → ScanResult → ℕ → Daemon → Option CertError × Manager × World → Daemon
unfolding observe
after_refresh env res elapsed d (e, m, w) = record d {
  manager = m;
  service = observe elapsed false (reconcile env.host res d.service);
  world = w;
}

after_scan : Env → Tick → Result Str ScanResult → Daemon → Daemon
unfolding after_refresh observe
after_scan env tick (err e) d = record d { service = observe tick.elapsed true d.service }
after_scan env tick (ok res) d =
    after_refresh env res tick.elapsed d
      (refresh env.crypto env.system d.manager (record (d.world) { disk = tick.disk }))

-- `runReconcile`: a failed scan retains the state; a failed refresh is logged, and the round goes on.
unfoldable pub run_reconcile : Env → Tick → Daemon → Daemon
unfolding after_scan
run_reconcile env tick d =
    let (found, owners) = scan_system tick.seen d.owners in
    after_scan env tick found (record d { owners = owners })

-- What the main loop wakes up for: the timer, or the end of the context after a signal.
pub data Wake : Type 0 where
  ticked : Tick → Wake
  done : Wake

-- The deferred `Close`, if the server has started.
stop_server : Env → Option Server → Node → Option Server × Node
stop_server env none n = (none, n)
stop_server env (some s) n = let (e, s', n') = close_server env.ipc s n in (some s', n')

-- The return of `Run`: the service is shut down, then the server of the status query is closed.
unfoldable pub leave_run : Env → Daemon → Daemon
unfolding stop_server
leave_run env d =
    let (server, node) = stop_server env d.server d.node in
    record d { service = shutdown d.service; server = server; node = node }

-- The main loop of `Run`: whether it has returned, and the state.
unfoldable pub main_loop : Env → List Wake → Daemon → Bool × Daemon
main_loop env [] d = (false, d)
main_loop env (done ∷ wakes) d = (true, leave_run env d)
main_loop env (ticked tick ∷ wakes) d = main_loop env wakes (run_reconcile env tick d)

is_set : Option Bool → Bool
is_set none = false
is_set (some b) = b

-- The manager that `Run` makes from the settings.
unfoldable pub make_manager : Disk → Config → Manager
unfolding is_set
make_manager disk cfg = set_auto_trust (is_set cfg.auto_trust_local_ca) (
    new_manager disk cfg.cert_config_path cfg.cert_host cfg.self_dir (is_set cfg.fallback_self)
      cfg.acme.enabled cfg.acme.domain cfg.acme.email cfg.acme.cache_dir)

-- The scanner has read no owners.
abbrev pub no_owners : Owners
no_owners = record { cached_inodes = []; last_refresh = 0 }

started :
    Config
    → Runtime
    → Option CertError × Manager × World
    → Option Server × Node
    → Option CertError × Daemon
started cfg rt (e, m, w) (server, node) = (
  e,
  record {
    manager = m;
    service = new_service cfg rt;
    world = w;
    server = server;
    node = node;
    owners = no_owners;
  },
)

-- A server that cannot be started is only logged.
unless_failed : Result StartError Server × Node → Option Server × Node
unless_failed (ok s, n) = (some s, n)
unless_failed (err e, n) = (none, n)

-- The socket of the status query: the flag, else the settings if they can be read, else the default.
unfoldable pub socket_path : Str → Option Config → Str → Str
socket_path flag cfg default =
    if is_empty flag
    then (elim cfg [
      | none ↦ default
      | some c ↦ if is_empty c.socket_path then default else c.socket_path
    ])
    else flag

unfoldable pub start_ipc : Env → Config → Option Server × Node
unfolding unless_failed
start_ipc env cfg = unless_failed (
    start_server env.ipc (socket_path env.socket_flag (some cfg) (default_socket_path env.process))
      env.names)

-- `Run` up to the main loop, with settings that were accepted: the error of the first refresh, which is
-- only logged, and the state.
unfoldable pub start_up : Env → Config → Runtime → World → Option CertError × Daemon
unfolding started
start_up env cfg rt w =
    started cfg rt (refresh env.crypto env.system (make_manager w.disk cfg) w) (start_ipc env cfg)

-- `Run`: the first round does not wait for the timer.
unfoldable pub run : Env → Config → Runtime → World → Tick → List Wake → Bool × Daemon
run env cfg rt w first wakes = main_loop env (ticked first ∷ wakes) (start_up env cfg rt w).1

-- What the status query answers: the provider that `Run` gives to the server. `uptime` is the time since the
-- start, in nanoseconds.
unfoldable pub status_report : Str → ℕ → ℕ → Service → StatusReport
unfolding get_metrics_snapshot
status_report version uptime now s = record {
  version = version;
  uptime_seconds = pos (uptime / 1000000000);
  timestamp = now;
  listeners = get_metrics_snapshot s;
}
