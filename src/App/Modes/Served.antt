-- ===== src/App/Modes/Served.antt =====
-- What the program serves, and with which settings.
use nas_conn_plus.Base.{
  Str, str_eq, ◌≡◌, refl, inl, inr, List, Option, some, Bool, Result, ok, err, is_empty, Bool-cases,
}
use nas_conn_plus.Files.{Disk}
use nas_conn_plus.Config.{Config}
use nas_conn_plus.Config.Load.{LoadError, finish}
use nas_conn_plus.Config.Load.Spec.{IsBounded}
use nas_conn_plus.Config.Load.Finish.{finish-IsBounded}
use nas_conn_plus.Config.File.{load_config_file, ensure_default_config}
use nas_conn_plus.Config.File.Accepted.{load_config_file-finish}
use nas_conn_plus.Scanner.{ScanResult, Runtime}
use nas_conn_plus.Scanner.System.{System, scan_system}
use nas_conn_plus.Cert.LocalCa.{World}
use nas_conn_plus.Ipc.{StatusReport}
use nas_conn_plus.Ipc.Query.{QueryError}
use nas_conn_plus.App.{Env, Daemon, Tick, Wake, no_owners, run}
use nas_conn_plus.App.Debug.{DebugServer, IsLocal, debug_server-IsLocal}
use nas_conn_plus.App.Running.{Safe, run-Safe}
use nas_conn_plus.App.Modes.{
  Flags, Outside, Outcome, showed_version, showed_status, no_status, showed_ports, no_scan,
  bad_settings, served, resolved_path, status_outcome, ask, status_mode, report_on, after_test_scan,
  test_mode, with_settings, after_ensure, daemon_mode, flags_of, run_program,
}

module _ (o : Outside) (env : Env) where
  -- A run of the daemon: the settings were accepted and are within their bounds, the service is in order,
  -- and the debug server, if there is one, listens on an address of the machine itself.
  pub record Ran (rt : Runtime) (first : Tick) (wakes : List Wake) (debug : Option DebugServer)
      (result : Bool × Daemon) : Type 0 where
    pub raw : Config
    pub cfg : Config
    pub accepted : finish raw ≡ ok cfg
    pub bounded : IsBounded cfg
    pub socket : Str
    pub world : World
    pub is_run : result ≡ run (record env { socket_flag = socket }) cfg rt world first wakes
    pub safe : Safe result.1.service
    pub local : (srv : DebugServer) → debug ≡ some srv → IsLocal o.split_host o.loopback srv.addr

  -- What is asked of an outcome.
  pub Sound : Runtime → Tick → List Wake → Outcome → Type 0
  Sound rt first wakes (served debug result) = Ran rt first wakes debug result
  Sound rt first wakes (showed_version text) = Unit
  Sound rt first wakes (showed_status view) = Unit
  Sound rt first wakes (no_status e) = Unit
  Sound rt first wakes (showed_ports rows) = Unit
  Sound rt first wakes (no_scan e) = Unit
  Sound rt first wakes (bad_settings e) = Unit

  with_settings-Sound :
      (f : Flags) (rt : Runtime) (w : World) (first : Tick) (wakes : List Wake)
      (p : Result LoadError Config × Disk)
      → ((cfg : Config) → p.0 ≡ ok cfg → (raw : Config) × (finish raw ≡ ok cfg))
      → Sound rt first wakes (with_settings o env f rt w first wakes p).0
  unfolding with_settings Sound
  with_settings-Sound f rt w first wakes (err e, d) v = tt
  with_settings-Sound f rt w first wakes (ok cfg, d) v =
      let (raw, accepted) = v cfg refl in
      let w' : World = record w { disk = d } in
      record {
        raw = raw;
        cfg = cfg;
        accepted = accepted;
        bounded = (finish-IsBounded raw cfg accepted).0;
        socket = f.socket;
        world = w';
        is_run = refl;
        safe = (run-Safe (record env { socket_flag = f.socket }) cfg rt w' first wakes).0;
        local = debug_server-IsLocal o.split_host o.loopback f.debug_addr;
      }

  after_ensure-Sound :
      (f : Flags) (rt : Runtime) (w : World) (first : Tick) (wakes : List Wake) (path : Str)
      (p : Result LoadError Str × Disk)
      → Sound rt first wakes (after_ensure o env f rt w first wakes path p).0
  unfolding after_ensure Sound
  after_ensure-Sound f rt w first wakes path (err e, d) = tt
  after_ensure-Sound f rt w first wakes path (ok _, d) =
      with_settings-Sound f rt w first wakes (load_config_file o.unmarshal path d)
        (load_config_file-finish o.unmarshal path d)

  status_outcome-Sound :
      (rt : Runtime) (first : Tick) (wakes : List Wake) (r : Result QueryError StatusReport)
      → Sound rt first wakes (status_outcome o env r)
  unfolding status_outcome Sound
  status_outcome-Sound rt first wakes (ok report) = tt
  status_outcome-Sound rt first wakes (err e) = tt

  status_mode-Sound :
      (f : Flags) (rt : Runtime) (first : Tick) (wakes : List Wake) (d : Disk)
      → Sound rt first wakes (status_mode o env f d).0
  unfolding status_mode ask
  status_mode-Sound f rt first wakes d = elim (Bool-cases (is_empty f.socket)) [
    | inl e ↦ rw e (status_outcome-Sound rt first wakes _)
    | inr e ↦ rw e (status_outcome-Sound rt first wakes _)
  ]

  after_test_scan-Sound :
      (f : Flags) (rt : Runtime) (first : Tick) (wakes : List Wake) (d : Disk)
      (r : Result Str ScanResult)
      → Sound rt first wakes (after_test_scan o env f rt d r).0
  unfolding after_test_scan report_on Sound
  after_test_scan-Sound f rt first wakes d (err e) = tt
  after_test_scan-Sound f rt first wakes d (ok res) = tt

  -- Whatever the arguments, the files and the machine are: where the program serves, it is a run of the daemon
  -- with settings that `LoadConfig` has accepted and that are within their bounds, the service is in order,
  -- and the debug server, if there is one, listens on localhost or on a loopback address.
  pub run_program-Sound :
      (args : List Str) (seen : System) (rt : Runtime) (w : World) (first : Tick)
      (wakes : List Wake)
      → Sound rt first wakes (run_program o env args seen rt w first wakes).0
  unfolding run_program test_mode daemon_mode Sound
  run_program-Sound args seen rt w first wakes =
      let f = flags_of o env args in
      elim (Bool-cases f.is_version) [
        | inl e ↦ rw e tt
        | inr e ↦ rw e (elim (Bool-cases f.is_status) [
          | inl h ↦ rw h (status_mode-Sound f rt first wakes w.disk)
          | inr h ↦ rw h (elim (Bool-cases f.is_test) [
            | inl t ↦
                rw t (after_test_scan-Sound f rt first wakes w.disk (scan_system seen no_owners).0)
            | inr t ↦ rw t (
                after_ensure-Sound f rt w first wakes (resolved_path o env f w.disk)
                  (ensure_default_config (resolved_path o env f w.disk) w.disk))
          ])
        ])
      ]
