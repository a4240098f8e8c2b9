-- ===== src/App/Diagnosis.antt =====
-- app.go: the diagnostic mode, which reports on the ports under the settings.
use nas_conn_plus.Base.{
  ℤ, pos, int_eq, ◌≡◌, refl, ◌∙◌, sym, subst, [], Option, none, some, Bool, true, false, mem, ok,
}
use nas_conn_plus.Config.{Config, union_ports}
use nas_conn_plus.Config.Sets.{mem-union_ports, mem-build_set}
use nas_conn_plus.Config.Policy.{is_excluded, is_https_allowed}
use nas_conn_plus.Config.Load.{finish, set_defaults, seal}
use nas_conn_plus.Config.Load.Ports.{seal-is_excluded}
use nas_conn_plus.Config.Load.Finish.{finish-eq-ok}
use nas_conn_plus.Scanner.Report.{DiagnosticOptions, https_auto_allowed}

is_set : Option Bool → Bool
is_set none = false
is_set (some b) = b

-- The options of the report: those of the settings, if they can be read. Both lists of excluded ports are
-- joined by the two loops of `unionPorts`, written out again.
unfoldable pub diagnostic_options : Option Config → DiagnosticOptions
unfolding is_set union_ports
diagnostic_options none = record {
  excluded_ports = [];
  https_auto = true;
  https_offset = pos 1;
  https_mode = [];
  https_allow = [];
}
diagnostic_options (some c) = record {
  excluded_ports = union_ports c.relay.exclude c.https_exclude;
  https_auto = is_set c.https_auto;
  https_offset = c.https_offset;
  https_mode = c.https_mode;
  https_allow = c.https_allow;
}

seal-agrees :
    (c : Config) (p : ℤ)
    → (mem p (diagnostic_options (some (seal c))).excluded_ports ≡ is_excluded (some (seal c)) p)
      × (https_auto_allowed p (diagnostic_options (some (seal c)))
          ≡ is_https_allowed (some (seal c)) p)
unfolding diagnostic_options seal https_auto_allowed is_https_allowed
seal-agrees c p = (
  mem-union_ports p c.relay.exclude c.https_exclude ∙ sym (seal-is_excluded c p),
  rw (mem-build_set p c.https_allow) refl,
)

-- The report and the daemon agree on the policy: for settings that were accepted, a port counts as excluded in
-- the report exactly when the daemon excludes it, and as allowed for an upgrade exactly when the daemon
-- allows it.
pub diagnostic_options-agrees :
    (raw c : Config) (p : ℤ)
    → finish raw ≡ ok c
    → (mem p (diagnostic_options (some c)).excluded_ports ≡ is_excluded (some c) p)
      × (https_auto_allowed p (diagnostic_options (some c)) ≡ is_https_allowed (some c) p)
diagnostic_options-agrees raw c p h =
    subst
      (λ (d : Config).
        (mem p (diagnostic_options (some d)).excluded_ports ≡ is_excluded (some d) p)
        × (https_auto_allowed p (diagnostic_options (some d)) ≡ is_https_allowed (some d) p))
      (finish-eq-ok raw c h).1 (seal-agrees (set_defaults raw) p)
