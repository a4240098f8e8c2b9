-- ===== src/Terminal.antt =====
-- internal/tui/tui.go: the badges of the report, as texts in a style.
use nas_conn_plus.Base.{
  ℤ, pos, ◌+ℤ◌, Str, codes, itoa, ◌++◌, Option, none, some, Bool, true, false, ◌≡◌, ◌↔◌, arith,
  if◌then◌else◌,
}
use nas_conn_plus.Logger.{Style, bold_in}
use nas_conn_plus.Scanner.Report.{
  RelayAction, excluded, relays, dual_stack, v6_only, nothing, relay_action, Prediction,
  no_prediction, excluded_port, no_http, auto_off, out_of_range, ready_at,
}

pub record Badge : Type 0 where
  pub style : Style
  pub text : Str

abbrev in_color : Str → Style
in_color color = record { bold = false; foreground = color }

abbrev grey : Style
grey = in_color (codes "#6272A4")

abbrev pub relay_badge : Badge
relay_badge = record { style = bold_in (codes "#50FA7B"); text = codes "● Will Relay to IPv6" }

abbrev pub dual_stack_badge : Badge
dual_stack_badge = record { style = bold_in (codes "#8BE9FD"); text = codes "● Native Dual-Stack" }

abbrev pub excluded_badge : Badge
excluded_badge = record { style = grey; text = codes "○ Excluded (Skip)" }

abbrev pub v6_only_badge : Badge
v6_only_badge = record { style = in_color (codes "#BD93F9"); text = codes "○ IPv6-Only" }

abbrev pub yes_badge : Badge
yes_badge = record { style = bold_in (codes "#50FA7B"); text = codes "YES" }

abbrev pub no_badge : Badge
no_badge = record { style = grey; text = codes "No" }

abbrev pub no_http_badge : Badge
no_http_badge = record { style = grey; text = codes "No HTTP" }

abbrev pub https_auto_disabled_badge : Badge
https_auto_disabled_badge = record { style = grey; text = codes "○ HTTPS Auto Off" }

abbrev pub https_range_badge : Badge
https_range_badge = record { style = in_color (codes "#FFB86C"); text = codes "○ > 65535" }

unfoldable pub https_ready_at : ℤ → Badge
unfolding itoa
https_ready_at target = record {
  style = bold_in (codes "#50FA7B");
  text = codes "✓ https :" ++ itoa target;
}

unfoldable pub https_ready : ℤ → Badge
unfolding https_ready_at
https_ready port = https_ready_at (port +ℤ pos 1)

abbrev pub bool_badge : Bool → Badge
bool_badge v = if v then yes_badge else no_badge

-- The action of a port as it is shown; `none` is the text "-".
unfoldable pub action_badge : RelayAction → Option Badge
action_badge excluded = some excluded_badge
action_badge relays = some relay_badge
action_badge dual_stack = some dual_stack_badge
action_badge v6_only = some v6_only_badge
action_badge nothing = none

-- The last column of the report; `none` is the text "-".
unfoldable pub prediction_badge : Prediction → Option Badge
unfolding https_ready_at
prediction_badge no_prediction = none
prediction_badge excluded_port = some excluded_badge
prediction_badge no_http = some no_http_badge
prediction_badge auto_off = some https_auto_disabled_badge
prediction_badge out_of_range = some https_range_badge
prediction_badge (ready_at target) = some (https_ready_at target)

-- A port is shown as one to relay exactly when it is open on IPv4 only and is not excluded.
shown_as_relay :
    (is_excluded v4 v6 : Bool)
    → (action_badge (relay_action is_excluded v4 v6) ≡ some relay_badge)
      ↔ ((is_excluded ≡ false) × (v4 ≡ true) × (v6 ≡ false))
unfolding action_badge relay_action
shown_as_relay true v4 v6 = ground arith
shown_as_relay false true true = ground arith
shown_as_relay false true false = ground arith
shown_as_relay false false true = ground arith
shown_as_relay false false false = ground arith
