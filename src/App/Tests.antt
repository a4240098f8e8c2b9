-- ===== src/App/Tests.antt =====
-- The daemon on the small machines of the other tests.
use nas_conn_plus.Base.{
  ℕ, ◌≡◌, refl, codes, str_beq, has_prefix, split, [], ◌∷◌, none, true, false, get, ok, err, arith,
  List, inl, pos, mem, int_eq, ◌||◌, some,
}
use nas_conn_plus.Scanner.System.{System}
use nas_conn_plus.Scanner.Table.{opened}
use nas_conn_plus.Scanner.Table.Tests.{ss_text}
use nas_conn_plus.Scanner.Owners.Tests.{tree}
use nas_conn_plus.Scanner.Report.{diagnostic_report, https_auto_allowed}
use nas_conn_plus.Scanner.Report.Ports.{Ascends, ports_of, diagnostic_report-ports}
use nas_conn_plus.Config.Policy.{is_excluded, is_https_allowed}
use nas_conn_plus.App.Diagnosis.{diagnostic_options, diagnostic_options-agrees}
use nas_conn_plus.Files.{stat, read_file}
use nas_conn_plus.Config.{Config}
use nas_conn_plus.Config.Paths.{clean}
use nas_conn_plus.Config.Tests.{settings, loaded, loads}
use nas_conn_plus.Proxy.Tests.{host, idle, scan}
use nas_conn_plus.Proxy.Sockets.{is_open}
use nas_conn_plus.Cert.{KeyPair, get_certificate, serves, set_auto_trust, new_manager}
use nas_conn_plus.Cert.Tests.{crypto, broken_tool, world, disk}
use nas_conn_plus.Cert.Refresh.Tests.{with_pair}
use nas_conn_plus.Cert.Files.{
  slurp, find_entry, find_first, load_key_pair, resolve_cert_files_with, load_all_cert_entries,
  cert_fingerprint, read_plain, has_file,
}
use nas_conn_plus.Cert.Refresh.{refresh, from_config, load_configured}
use nas_conn_plus.Ipc.{Process}
use nas_conn_plus.Ipc.Tests.{os, node}
use nas_conn_plus.App.Leaving.{IsQuiet}
use nas_conn_plus.App.{Env, Tick, Wake, ticked, done, make_manager, start_up, run}
use nas_conn_plus.App.Arguments.{filter_arguments, filter_arguments-anywhere}
use nas_conn_plus.App.Running.{Safe, run-Safe, run-serves}

abbrev process : Process
process = record { xdg_runtime_dir = []; has_run = true; uid = 0; temp_dir = codes "/tmp" }

abbrev pub env : Env
env = record {
  host = host;
  crypto = crypto;
  system = broken_tool;
  ipc = os;
  process = process;
  socket_flag = [];
  names = node;
}

abbrev cfg : Config
cfg = record settings { cert_config_path = codes "/c/certs.json"; cert_host = codes "nas.local" }

-- A machine without procfs, on which `ss` prints one line.
abbrev pub seen : System
seen = record {
  has_proc = false;
  tree = tree;
  first = (opened [] none, opened [] none);
  second = (opened [] none, opened [] none);
  now = 0;
  is_darwin = false;
  lsof = err (codes "no lsof");
  ss = ok ss_text;
  my_pid = pos 7;
}

abbrev pub tick : Tick
tick = record { seen = seen; elapsed = 1000000; disk = disk }

abbrev pub failed : Tick
failed = record tick { seen = record seen { ss = err (codes "no ss") } }

abbrev wakes : List Wake
wakes = ticked failed ∷ ticked tick ∷ done ∷ []

run-Safe_example :
    let (stopped, d) = run env cfg idle.runtime world tick wakes in
    Safe d.service × (stopped ≡ true → ((n : ℕ) → is_open n d.service.events ≡ false) × IsQuiet d)
run-Safe_example = run-Safe env cfg idle.runtime world tick wakes

starts : (start_up env cfg idle.runtime with_pair).0 ≡ none
unfolding start_up make_manager refresh from_config load_configured resolve_cert_files_with
    load_all_cert_entries cert_fingerprint load_key_pair read_plain has_file stat find_first
    find_entry slurp read_file clean str_beq has_prefix split get set_auto_trust new_manager
starts = refl

run-serves_example :
    (kc : KeyPair) × (get_certificate
        (λ hello. none)
        (run env cfg idle.runtime with_pair tick wakes).1.manager
        none
      ≡ serves kc)
run-serves_example =
    run-serves env cfg idle.runtime with_pair tick wakes (λ hello. none) none starts

filter_arguments-anywhere_example :
    (filter_arguments (codes "-c" ∷ codes "status" ∷ [])
      ≡ (false, codes "-c" ∷ codes "status" ∷ []))
    × (filter_arguments (codes "-c" ∷ codes "status" ∷ codes "status" ∷ codes "-v" ∷ [])
        ≡ (true, codes "-c" ∷ codes "status" ∷ codes "-v" ∷ []))
filter_arguments-anywhere_example =
    filter_arguments-anywhere (codes "-c" ∷ codes "status" ∷ []) (codes "-v" ∷ [])
      (λ e. ground arith, (λ e. inl refl, tt)) (λ e. ground arith, tt) (λ h. ground arith)

diagnostic_options-agrees_example :
    let c = loaded in
    (mem (pos 8080) (diagnostic_options (some c)).excluded_ports ≡ is_excluded (some c) (pos 8080))
    × (https_auto_allowed (pos 8080) (diagnostic_options (some c))
        ≡ is_https_allowed (some c) (pos 8080))
diagnostic_options-agrees_example = diagnostic_options-agrees settings loaded (pos 8080) loads

diagnostic_report-ports_example :
    let ports =
      ports_of (diagnostic_report scan (diagnostic_options none) host.machine idle.runtime).0 in
    Ascends ports × (mem (pos 22) ports ≡ (mem (pos 22) scan.v4_wild || mem (pos 22) scan.v6_any))
diagnostic_report-ports_example =
    diagnostic_report-ports scan (diagnostic_options none) host.machine idle.runtime (pos 22)
