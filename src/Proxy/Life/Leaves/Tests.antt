-- ===== src/Proxy/Life/Leaves/Tests.antt =====
-- A relay that a poll has started, and two scans that find nothing.
use nas_conn_plus.Base.{◌≡◌, refl, sym, subst, pos, ◌≤ℤ◌, List, [], ◌∷◌, mem, int_eq, arith}
use nas_conn_plus.Config.{Config}
use nas_conn_plus.Scanner.{ScanResult, new_result}
use nas_conn_plus.Proxy.{relay, Service}
use nas_conn_plus.Proxy.Reconcile.{reconcile}
use nas_conn_plus.Proxy.Reconcile.Settings.{reconcile-cfg}
use nas_conn_plus.Proxy.Reconcile.Invariant.{reconcile-Inv}
use nas_conn_plus.Proxy.Tests.{host, scan, idle, idle-Inv}
use nas_conn_plus.Proxy.Life.{absent, slot}
use nas_conn_plus.Proxy.Life.Leaves.{polls, polls-absent}

abbrev relaying : Service
relaying = reconcile host scan idle

abbrev quiet_scans : List ScanResult
quiet_scans = new_result ∷ new_result ∷ []

polls-absent_example : slot (relay, pos 8080) (polls host quiet_scans relaying) ≡ absent
unfolding mem new_result
polls-absent_example =
    polls-absent host quiet_scans relaying (relay, pos 8080) (reconcile-Inv host scan idle idle-Inv)
      (refl, (refl, tt)) (omega arith)
      (subst (λ (c : Config). c.grace_polls ≤ℤ pos 2) (sym (reconcile-cfg host scan idle))
        (omega arith))
