-- ===== src/App/Modes/Pure.antt =====
-- The modes that only print read the disk, and no more.
use nas_conn_plus.Base.{Str, ◌≡◌, refl, List, true, ◌||◌, Result, ok, err, arith}
use nas_conn_plus.Files.{Disk}
use nas_conn_plus.Config.File.Pure.{load_config_file-disk}
use nas_conn_plus.Scanner.{ScanResult, Runtime}
use nas_conn_plus.Scanner.System.{System, scan_system}
use nas_conn_plus.Cert.LocalCa.{World}
use nas_conn_plus.App.{Env, Tick, Wake, no_owners}
use nas_conn_plus.App.Modes.{
  Flags, Outside, resolved_path, read_settings, status_mode, report_on, after_test_scan, test_mode,
  flags_of, run_program,
}

module _ (o : Outside) (env : Env) where
  read_settings-disk : (f : Flags) (d : Disk) → (read_settings o env f d).1 ≡ d
  unfolding read_settings
  read_settings-disk f d = load_config_file-disk o.unmarshal (resolved_path o env f d) d

  status_mode-disk : (f : Flags) (d : Disk) → (status_mode o env f d).1 ≡ d
  unfolding status_mode
  status_mode-disk f d = ground (arith, read_settings-disk f d)

  after_test_scan-disk :
      (f : Flags) (rt : Runtime) (d : Disk) (r : Result Str ScanResult)
      → (after_test_scan o env f rt d r).1 ≡ d
  unfolding after_test_scan report_on
  after_test_scan-disk f rt d (err e) = refl
  after_test_scan-disk f rt d (ok res) = read_settings-disk f d

  -- With one of the flags for the version, the status or the diagnosis, the program leaves the disk as it is,
  -- whatever it finds and whatever fails.
  pub run_program-disk :
      (args : List Str) (seen : System) (rt : Runtime) (w : World) (first : Tick)
      (wakes : List Wake)
      → let f = flags_of o env args in
        (f.is_version || (f.is_status || f.is_test)) ≡ true
        → (run_program o env args seen rt w first wakes).1 ≡ w.disk
  unfolding run_program test_mode
  run_program-disk args seen rt w first wakes h =
      let f = flags_of o env args in
      ground (
        arith,
        h,
        status_mode-disk f w.disk,
        after_test_scan-disk f rt w.disk (scan_system seen no_owners).0,
      )
