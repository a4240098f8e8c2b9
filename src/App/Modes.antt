-- ===== src/App/Modes.antt =====
-- app.go `Run`: the modes of the program. The `flag` package, JSON and what a socket answers are parameters.

pub mod Pure
pub mod Served
pub mod Status
pub mod Tests
use nas_conn_plus.Base.{
  ℕ, Str, codes, ◌++◌, is_empty, List, [], Option, none, some, Bool, true, false, Result, ok, err,
  if◌then◌else◌,
}
use nas_conn_plus.Files.{Disk, Answer, found, missing, fault, stat}
use nas_conn_plus.Config.{Config}
use nas_conn_plus.Config.Paths.{resolve_config_path}
use nas_conn_plus.Config.Load.{LoadError}
use nas_conn_plus.Config.File.{load_config_file, ensure_default_config}
use nas_conn_plus.Scanner.{ScanResult, Runtime}
use nas_conn_plus.Scanner.System.{System, scan_system}
use nas_conn_plus.Scanner.Report.{ReportRow, diagnostic_report}
use nas_conn_plus.Cert.LocalCa.{World}
use nas_conn_plus.Ipc.{StatusReport, default_socket_path}
use nas_conn_plus.Ipc.Render.{View, render_status}
use nas_conn_plus.Ipc.Query.{Json, Wire, QueryError, query_status}
use nas_conn_plus.App.{Env, Daemon, Tick, Wake, no_owners, socket_path, run}
use nas_conn_plus.App.Debug.{DebugServer, debug_server}
use nas_conn_plus.App.Arguments.{filter_arguments}
use nas_conn_plus.App.Diagnosis.{diagnostic_options}

-- The flags after `Parse`.
pub record Flags : Type 0 where
  pub config_path : Str
  pub socket : Str
  pub debug_addr : Str
  pub is_version : Bool
  pub is_status : Bool
  pub is_test : Bool

-- `parse` is `flag.CommandLine.Parse`, from the value that the flag `status` has before; `unmarshal` is
-- `json.Unmarshal` into a zero `Config`; `cwd` is what `os.Getwd` returns; `quotient` prints a quotient with one
-- digit; `split_host` and `loopback` are `net.SplitHostPort` and `IsLoopback` of `net.ParseIP`.
pub record Outside : Type 0 where
  pub parse : Bool → List Str → Flags
  pub unmarshal : Str → Option Config
  pub cwd : Option Str
  pub json : Json
  pub wire : Wire
  pub quotient : ℕ → ℕ → Str
  pub clock : ℕ
  pub split_host : Str → Option Str
  pub loopback : Str → Option Bool
  pub goos : Str
  pub goarch : Str

-- What the program does before it returns: what it prints, or the run of the daemon, with the debug server,
-- if there is one.
pub data Outcome : Type 0 where
  showed_version : Str → Outcome
  showed_status : View → Outcome
  no_status : QueryError → Outcome
  showed_ports : List ReportRow → Outcome
  no_scan : Str → Outcome
  bad_settings : LoadError → Outcome
  served : Option DebugServer → Bool × Daemon → Outcome

abbrev is_found : Answer → Bool
is_found (found text) = true
is_found missing = false
is_found (fault e) = false

abbrev if_ok : Result LoadError Config → Option Config
if_ok (ok cfg) = some cfg
if_ok (err e) = none

abbrev pub version : Str
version = codes "1.1.1"

abbrev build_date : Str
build_date = codes "2026-09-08"

module _ (o : Outside) (env : Env) where
  resolved_path : Flags → Disk → Str
  unfolding resolve_config_path
  resolved_path f d = resolve_config_path (λ p. is_found (stat d p)) o.cwd f.config_path

  -- The settings of the two modes that only read.
  read_settings : Flags → Disk → Result LoadError Config × Disk
  unfolding resolved_path
  read_settings f d = load_config_file o.unmarshal (resolved_path f d) d

  version_text : Str
  version_text =
      codes "nasconn+ v"
      ++ (version
          ++ (codes " (built "
              ++ (build_date
                  ++ (codes ", " ++ (o.goos ++ (codes "/" ++ (o.goarch ++ codes ")")))))))

  status_outcome : Result QueryError StatusReport → Outcome
  status_outcome (ok report) = showed_status (render_status o.quotient o.clock report)
  status_outcome (err e) = no_status e

  ask : Flags → Option Config → Outcome
  unfolding status_outcome
  ask f cfg =
      status_outcome
        (query_status o.json o.wire (socket_path f.socket cfg (default_socket_path env.process)))

  -- The status mode: the settings are not read when the socket is given.
  unfoldable pub status_mode : Flags → Disk → Outcome × Disk
  unfolding read_settings ask
  status_mode f d =
      let (cfg, d') = read_settings f d in
      if is_empty f.socket then (ask f (if_ok cfg), d') else (ask f none, d)

  report_on : Runtime → ScanResult → Result LoadError Config × Disk → Outcome × Disk
  report_on rt res (cfg, d) = (
    showed_ports (diagnostic_report res (diagnostic_options (if_ok cfg)) env.host.machine rt).0,
    d,
  )

  after_test_scan : Flags → Runtime → Disk → Result Str ScanResult → Outcome × Disk
  unfolding report_on read_settings
  after_test_scan f rt d (err e) = (no_scan e, d)
  after_test_scan f rt d (ok res) = report_on rt res (read_settings f d)

  -- The diagnostic mode.
  unfoldable pub test_mode : Flags → System → Runtime → Disk → Outcome × Disk
  unfolding after_test_scan
  test_mode f seen rt d = after_test_scan f rt d (scan_system seen no_owners).0

  with_settings :
      Flags → Runtime → World → Tick → List Wake → Result LoadError Config × Disk → Outcome × Disk
  unfolding debug_server
  with_settings f rt w first wakes (err e, d) = (bad_settings e, d)
  with_settings f rt w first wakes (ok cfg, d) =
      let daemon =
        run (record env { socket_flag = f.socket }) cfg rt (record w { disk = d }) first wakes in
      (served (debug_server o.split_host o.loopback f.debug_addr) daemon, daemon.1.world.disk)

  after_ensure :
      Flags
      → Runtime
      → World
      → Tick
      → List Wake
      → Str
      → Result LoadError Str × Disk
      → Outcome × Disk
  unfolding with_settings
  after_ensure f rt w first wakes path (err e, d) = (bad_settings e, d)
  after_ensure f rt w first wakes path (ok _, d) =
      with_settings f rt w first wakes (load_config_file o.unmarshal path d)

  -- The daemon: the default file is created if there is none, then the settings are read.
  unfoldable pub daemon_mode : Flags → Runtime → World → Tick → List Wake → Outcome × Disk
  unfolding after_ensure resolved_path
  daemon_mode f rt w first wakes =
      let path = resolved_path f w.disk in
      after_ensure f rt w first wakes path (ensure_default_config path w.disk)

  abbrev pub flags_of : List Str → Flags
  flags_of args = let (from_word, rest) = filter_arguments args in o.parse from_word rest

  -- `Run`. `first` and `wakes` are what the daemon meets, `seen` what the diagnostic mode scans.
  unfoldable pub run_program :
      List Str → System → Runtime → World → Tick → List Wake → Outcome × Disk
  unfolding status_mode test_mode daemon_mode version_text
  run_program args seen rt w first wakes =
      let f = flags_of args in
      if f.is_version
      then (showed_version version_text, w.disk)
      else if f.is_status
      then status_mode f w.disk
      else if f.is_test
      then test_mode f seen rt w.disk
      else daemon_mode f rt w first wakes
