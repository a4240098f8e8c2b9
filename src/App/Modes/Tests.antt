-- ===== src/App/Modes/Tests.antt =====
-- The program in its modes, on the small machines of the other tests.
use nas_conn_plus.Base.{
  Str, codes, str_beq, ◌≡◌, ◌≢◌, refl, List, [], ◌∷◌, ◌++◌, none, some, Bool, true, false, Result,
  ok, err, str_eq, arith,
}
use nas_conn_plus.Config.Tests.{settings, loaded}
use nas_conn_plus.Cert.Tests.{world}
use nas_conn_plus.Proxy.{Service}
use nas_conn_plus.Proxy.Tests.{idle}
use nas_conn_plus.Ipc.{StatusReport}
use nas_conn_plus.Ipc.Render.{View}
use nas_conn_plus.Ipc.Query.{Json, Carries, handle}
use nas_conn_plus.App.Tests.{env, seen, tick, failed}
use nas_conn_plus.App.{ticked}
use nas_conn_plus.App.Arguments.{filter_arguments}
use nas_conn_plus.App.Modes.{Flags, Outside, showed_status, run_program, flags_of}
use nas_conn_plus.App.Modes.Pure.{run_program-disk}
use nas_conn_plus.App.Modes.Served.{Sound, run_program-Sound}
use nas_conn_plus.App.Modes.Status.{service_of, report_of, Displays, run_program-Displays}

abbrev polled : Service
polled = service_of env loaded idle.runtime world tick []

abbrev report : StatusReport
report = report_of 0 0 polled

abbrev decode : Str → Result Str StatusReport
decode [] = err (codes "unexpected EOF")
decode (c ∷ s) = ok report

abbrev json : Json
json = record { marshal = λ r. codes "{"; decode = decode }

no_part :
    (text rest : Str) → codes "{" ≡ text ++ rest → rest ≢ [] → (e : Str) × (decode text ≡ err e)
no_part [] rest e more = (codes "unexpected EOF", refl)
no_part (c ∷ []) rest e more = absurd (more cc)
no_part (c ∷ d ∷ text) rest e more = cc

carries : Carries json report
carries = record { whole = λ rest. refl; part = no_part }

abbrev flags : Bool → List Str → Flags
flags from_word args = record {
  config_path = [];
  socket = codes "/run/nas.sock";
  debug_addr = codes "127.0.0.1:6060";
  is_version = false;
  is_status = from_word;
  is_test = false;
}

abbrev outside : Outside
outside = record {
  parse = flags;
  unmarshal = λ text. some settings;
  cwd = none;
  json = json;
  wire = record { dial = λ path. ok (handle json report) };
  quotient = λ a b. codes "0.0";
  clock = 0;
  split_host = λ addr. some (codes "127.0.0.1");
  loopback = λ host. some true;
  goos = codes "linux";
  goarch = codes "arm64";
}

abbrev status_command : List Str
status_command = codes "status" ∷ []

has_word : (flags_of outside env status_command).is_status ≡ true
unfolding filter_arguments str_beq
has_word = refl

run_program-disk_example :
    (run_program outside env status_command seen idle.runtime world tick []).1 ≡ world.disk
run_program-disk_example =
    run_program-disk outside env status_command seen idle.runtime world tick []
      (ground (arith, has_word))

run_program-Sound_example :
    Sound outside env idle.runtime failed
      (ticked tick ∷ [])
      (run_program outside env [] seen idle.runtime world failed (ticked tick ∷ [])).0
run_program-Sound_example =
    run_program-Sound outside env [] seen idle.runtime world failed (ticked tick ∷ [])

run_program-Displays_example :
    (view : View) × ((run_program outside env status_command seen idle.runtime world tick []).0
      ≡ showed_status view)
    × Displays outside.quotient polled view
run_program-Displays_example =
    run_program-Displays outside env status_command seen idle.runtime world tick [] env loaded
      idle.runtime world tick [] 0 0 refl has_word refl carries (omega arith) refl
