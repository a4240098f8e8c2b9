-- ===== src/Scanner/Report.antt =====
-- scanner.go `DiagnosticReport`, with the classification of tui.go: what the cells of the table say.
pub mod Ports
use nas_conn_plus.Base.{
  ℤ, pos, ◌+ℤ◌, leb_ℤ, ltb_ℤ, eqb_ℤ, int_eq, Str, codes, str_beq, itoa, is_empty, List, [], ◌∷◌,
  ◌++◌, Option, none, some, Bool, true, false, not, ◌&&◌, ◌||◌, Map, get, mem, if◌then◌else◌,
}
use nas_conn_plus.Config.Policy.{is_nil, whitelist}
use nas_conn_plus.Scanner.{ScanResult, Runtime}
use nas_conn_plus.Scanner.Prober.{Machine, probe_ports}

-- `DiagnosticOptions`.
pub record DiagnosticOptions : Type 0 where
  pub excluded_ports : List ℤ
  pub https_auto : Bool
  pub https_offset : ℤ
  pub https_mode : Str
  pub https_allow : List ℤ

-- `httpsAutoAllowed`.
unfoldable pub https_auto_allowed : ℤ → DiagnosticOptions → Bool
unfolding mem str_beq
https_auto_allowed backend opts =
    if str_beq opts.https_mode whitelist
    then (if is_nil opts.https_allow then false else mem backend opts.https_allow)
    else if is_nil opts.https_allow
    then true
    else mem backend opts.https_allow

-- A port joins a sorted list, once.
unfoldable pub insert_port : ℤ → List ℤ → List ℤ
insert_port p [] = p ∷ []
insert_port p (q ∷ qs) =
    let later = insert_port p qs in
    if eqb_ℤ p q then q ∷ qs else if ltb_ℤ p q then p ∷ q ∷ qs else q ∷ later

unfoldable pub insert_ports : List ℤ → List ℤ → List ℤ
unfolding insert_port
insert_ports [] out = out
insert_ports (p ∷ ps) out = insert_ports ps (insert_port p out)

-- The keys of both maps, each once, after `sort.Ints`.
unfoldable pub sorted_ports : ScanResult → List ℤ
unfolding insert_ports
sorted_ports r = insert_ports r.v6_any (insert_ports r.v4_wild [])

-- `RelayAction`.
pub data RelayAction : Type 0 where
  excluded relays dual_stack v6_only nothing : RelayAction

unfoldable pub relay_action : (is_excluded v4 v6 : Bool) → RelayAction
relay_action true v4 v6 = excluded
relay_action false true false = relays
relay_action false true true = dual_stack
relay_action false false true = v6_only
relay_action false false false = nothing

-- The last column.
pub data Prediction : Type 0 where
  no_prediction excluded_port no_http auto_off out_of_range : Prediction
  ready_at : ℤ → Prediction

unfoldable pub predict_target : ℤ → DiagnosticOptions → Prediction
unfolding ◌+ℤ◌
predict_target p opts =
    let target = p +ℤ (if leb_ℤ opts.https_offset (pos 0) then pos 1 else opts.https_offset) in
    if ltb_ℤ (pos 65535) target then out_of_range else ready_at target

unfoldable pub predict : (is_excluded v4 v6 is_http : Bool) → ℤ → DiagnosticOptions → Prediction
unfolding predict_target https_auto_allowed
predict is_excluded v4 v6 is_http p opts =
    if is_excluded
    then excluded_port
    else if not (v4 || v6)
    then no_prediction
    else if not is_http
    then no_http
    else if not opts.https_auto
    then auto_off
    else if https_auto_allowed p opts
    then predict_target p opts
    else excluded_port

pub record ReportRow : Type 0 where
  pub port : ℤ
  pub v4 : Bool
  pub v6 : Bool
  pub pid : Str
  pub name : Str
  pub action : RelayAction
  pub prediction : Prediction

pid_text : Option ℤ → Str
unfolding itoa
pid_text none = codes "-"
pid_text (some pid) = if ltb_ℤ (pos 0) pid then itoa pid else codes "-"

name_text : Option Str → Str
name_text none = codes "-"
name_text (some name) = if is_empty name then codes "-" else name

is_true : Option Bool → Bool
is_true none = false
is_true (some b) = b

module _ (r : ScanResult) (opts : DiagnosticOptions) where
  unfoldable pub report_row : Map ℤ Bool → ℤ → ReportRow
  unfolding mem get pid_text name_text is_true relay_action predict
  report_row answers p =
      let out = mem p opts.excluded_ports in
      let on4 = mem p r.v4_wild in
      let on6 = mem p r.v6_any in
      record {
        port = p;
        v4 = on4;
        v6 = on6;
        pid = pid_text (get p r.pids);
        name = name_text (get p r.names);
        action = relay_action out on4 on6;
        prediction = predict out on4 on6 (is_true (get p answers)) p opts;
      }

  unfoldable pub report_rows : Map ℤ Bool → List ℤ → List ReportRow
  report_rows answers [] = []
  report_rows answers (p ∷ ps) = report_row answers p ∷ report_rows answers ps

  -- The ports that are probed.
  unfoldable pub to_probe : List ℤ → List ℤ
  unfolding mem
  to_probe [] = []
  to_probe (p ∷ ps) =
      let rest = to_probe ps in
      if not (mem p opts.excluded_ports) && (mem p r.v4_wild || mem p r.v6_any)
      then p ∷ rest
      else rest

  -- The ports are probed, then each has its row.
  rows_for : Machine → Runtime → List ℤ → List ReportRow × Runtime
  unfolding report_rows to_probe
  rows_for o rt [] = ([], rt)
  rows_for o rt (p ∷ ps) =
      let (answers, rt') = probe_ports o (to_probe (p ∷ ps)) rt in
      (report_rows answers (p ∷ ps), rt')

  -- `DiagnosticReport`: no row stands for the text for no port.
  unfoldable pub diagnostic_report : Machine → Runtime → List ReportRow × Runtime
  unfolding rows_for sorted_ports
  diagnostic_report o rt = rows_for o rt (sorted_ports r)
