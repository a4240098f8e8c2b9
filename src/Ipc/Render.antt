-- ===== src/Ipc/Render.antt =====
-- client.go `RenderStatus`: what the cells of the table say. The colours and the frame are lipgloss's.
use nas_conn_plus.Base.{
  int64, ◌*◌, ◌^◌, ◌-◌, ◌+◌, ℕ, zero, suc, ltb, ℤ, pos, negsuc, ◌+ℤ◌, Str, codes, itoa, List, [],
  ◌∷◌, ◌++◌, Option, if◌then◌else◌,
}
use nas_conn_plus.Metrics.{u64}
use nas_conn_plus.Proxy.{Kind, https, relay}
use nas_conn_plus.Proxy.Listen.{ListenerMetrics}
use nas_conn_plus.Ipc.{StatusReport}
use nas_conn_plus.Ipc.Format.{sanitize_string, truncate_runes, format_bytes, format_duration}

pub record Row : Type 0 where
  pub name : Str
  pub kind : Str
  pub listen : Str
  pub backend : Str
  pub status : Str
  pub active : Str
  pub total : Str
  pub traffic : Option Str × Option Str
  pub uptime : Str

unfoldable pub kind_text : Kind → Str
kind_text https = codes "HTTPS (L7)"
kind_text relay = codes "Relay (L4)"

unfoldable pub listen_text : Kind → ℤ → Str
unfolding itoa
listen_text https port = codes "https :" ++ itoa port
listen_text relay port = codes "[::]:" ++ itoa port

unfoldable pub status_text : ℕ → Str
unfolding itoa
status_text zero = codes "● OK"
status_text (suc n) = codes "▲ " ++ (itoa (pos (suc n)) ++ codes " err")

-- `now.Sub(t)`: a difference of times saturates.
since : ℕ → ℕ → ℤ
since now t =
    if ltb now t
    then negsuc (if ltb (t - now - 1) (2 ^ 63) then t - now - 1 else 2 ^ 63 - 1)
    else pos (if ltb (now - t) (2 ^ 63) then now - t else 2 ^ 63 - 1)

unfoldable pub render_row : (ℕ → ℕ → Str) → ℕ → ListenerMetrics → Row
unfolding kind_text listen_text status_text since itoa
render_row quotient now l = record {
  name = truncate_runes (sanitize_string l.name) (pos 48);
  kind = kind_text l.kind;
  listen = listen_text l.kind l.port;
  backend = codes "127.0.0.1:" ++ itoa l.backend;
  status = status_text l.error_count;
  active = itoa l.active_conn;
  total = itoa (pos l.total_conn);
  traffic = (format_bytes quotient l.bytes_in, format_bytes quotient l.bytes_out);
  uptime = format_duration (since now l.started_at);
}

unfoldable pub render_rows : (ℕ → ℕ → Str) → ℕ → List ListenerMetrics → List Row
render_rows quotient now [] = []
render_rows quotient now (l ∷ ls) = render_row quotient now l ∷ render_rows quotient now ls

pub record Totals : Type 0 where
  pub active : ℤ
  pub traffic : ℕ
  pub errors : ℕ

unfoldable pub add_totals : ListenerMetrics → Totals → Totals
add_totals l t = record {
  active = t.active +ℤ l.active_conn;
  traffic = u64 (t.traffic + u64 (l.bytes_in + l.bytes_out));
  errors = u64 (t.errors + l.error_count);
}

-- The totals of the loop.
unfoldable pub totals : List ListenerMetrics → Totals → Totals
totals [] t = t
totals (l ∷ ls) t = totals ls (add_totals l t)

unfoldable pub no_totals : Totals
no_totals = record { active = pos 0; traffic = 0; errors = 0 }

-- `time.Duration(n) * time.Second`: it wraps around.
from_seconds : ℤ → ℤ
unfolding int64
from_seconds (pos n) = int64 (u64 (n * 1000000000))
from_seconds (negsuc n) = int64 (u64 (2 ^ 64 - u64 ((n + 1) * 1000000000)))

-- The parts of the summary line: the version, the uptime, the totals, and the traffic as a text.
unfoldable pub summary : (ℕ → ℕ → Str) → StatusReport → Str × Str × Totals × Option Str
unfolding no_totals from_seconds
summary quotient r =
    let t = totals r.listeners no_totals in
    (
      truncate_runes (sanitize_string r.version) (pos 32),
      format_duration (from_seconds r.uptime_seconds),
      t,
      format_bytes quotient t.traffic,
    )

-- What the program prints: the text for no listener, or the rows and the summary line.
pub data View : Type 0 where
  nothing_open : View
  table : List Row → Str × Str × Totals × Option Str → View

-- `RenderStatus` at the time `now`.
unfoldable pub render_status : (ℕ → ℕ → Str) → ℕ → StatusReport → View
render_status quotient now r = elim r.listeners [
  | [] ↦ nothing_open
  | l ∷ ls ↦ table (render_rows quotient now (l ∷ ls)) (summary quotient r)
]
