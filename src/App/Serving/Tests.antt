-- ===== src/App/Serving/Tests.antt =====
-- The daemon with a rule from port 5000 to port 5001, whose backend comes up after a scan that failed.
use nas_conn_plus.Base.{ℤ, get, pos, codes, refl, ap, inl, inr, [], ◌≡◌, ok, mem, int_eq}
use nas_conn_plus.Config.Tests.{settings, loaded, loads}
use nas_conn_plus.Config.Load.{seal, set_defaults}
use nas_conn_plus.Scanner.Owners.{scan}
use nas_conn_plus.Scanner.System.{scan_system}
use nas_conn_plus.Scanner.Table.Tests.{ss_result, ss_test}
use nas_conn_plus.Cert.Tests.{world}
use nas_conn_plus.Proxy.{https}
use nas_conn_plus.Proxy.Http.{new_service}
use nas_conn_plus.Proxy.Tests.{idle}
use nas_conn_plus.Proxy.Life.{Slot, absent, slot}
use nas_conn_plus.Proxy.Life.Serves.{Demanded, HasRoom, rule, Served}
use nas_conn_plus.App.{Daemon, run_reconcile, run, start_up, main_loop}
use nas_conn_plus.App.Tests.{env, tick, failed}
use nas_conn_plus.App.Serving.{run-Served}

abbrev waiting : Daemon
waiting = (run env loaded idle.runtime world failed []).1

called : Demanded waiting.service ss_result (https, pos 5001) (pos 5000)
unfolding run main_loop run_reconcile scan scan_system new_service mem start_up seal set_defaults
called =
    rule (record { name = codes "nas"; http = pos 5000; https = pos 5001 }) (inl refl) (inr refl)
      refl refl

found : (scan_system tick.seen waiting.owners).0 ≡ ok ss_result
unfolding scan_system scan
found = ap ok ss_test

free_slot : slot (https, pos 5001) waiting.service ≡ absent
unfolding run main_loop run_reconcile scan scan_system new_service start_up slot get
free_slot = refl

absent-HasRoom : (backend : ℤ) (a : Slot) → a ≡ absent → HasRoom backend a
absent-HasRoom backend a e st n f = cc

run-Served_example : Served (https, pos 5001) (pos 5000) (run_reconcile env tick waiting).service
unfolding run main_loop
run-Served_example =
    run-Served env settings loaded idle.runtime world failed [] tick ss_result (https, pos 5001)
      (pos 5000) loads refl found called (λ n l r. refl)
      (absent-HasRoom (pos 5000) (slot (https, pos 5001) waiting.service) free_slot)
