-- ===== src/App/Modes/Status.antt =====
-- The status query from end to end: the service, the report, the socket, and the table that is printed.
use nas_conn_plus.Base.{
  ℕ, zero, suc, pos, ℤ, ◌↔◌, ◌++◌, codes, itoa, get, some, sym, subst, arith, ◌≤◌, length, Str, ◌≡◌,
  refl, ap, inl, inr, List, [], ◌∷◌, In, Empty, true, false, is_empty, ok,
}
use nas_conn_plus.Config.{Config}
use nas_conn_plus.Scanner.{Runtime}
use nas_conn_plus.Scanner.System.{System}
use nas_conn_plus.Cert.LocalCa.{World}
use nas_conn_plus.Proxy.{Kind, https, relay, Key, key, key_eq, ListenerState, Service}
use nas_conn_plus.Proxy.Servers.{addr_of}
use nas_conn_plus.Ipc.Format.{sanitize_string, truncate_runes, format_bytes}
use nas_conn_plus.Proxy.Listen.{ListenerMetrics, metrics_of}
use nas_conn_plus.Proxy.Sockets.{is_open}
use nas_conn_plus.Ipc.{StatusReport}
use nas_conn_plus.Ipc.Render.{
  kind_text, listen_text, status_text, Row, View, nothing_open, table, render_row, render_rows,
  render_status,
}
use nas_conn_plus.Ipc.Query.{handle, Carries, max_answer, query_status, query_status-handle}
use nas_conn_plus.App.{Env, Tick, Wake, status_report, socket_path, run}
use nas_conn_plus.App.Reported.{Shows, run-Shows}
use nas_conn_plus.App.Modes.{
  Outside, showed_status, version, status_outcome, ask, status_mode, flags_of, run_program,
}

abbrev pub IsRow : Row → View → Type 0
IsRow row nothing_open = Empty
IsRow row (table rows sum) = In row rows

-- The row tells of the open socket: its cells are those of the entry of the service that holds it.
pub record Tells (quotient : ℕ → ℕ → Str) (s : Service) (n : ℕ) (row : Row) : Type 0 where
  pub is_up : is_open n s.events ≡ true
  pub k : Key
  pub st : ListenerState
  pub entry : get k s.listeners ≡ some st
  pub key_is : k ≡ key st.kind st.port
  pub ln : st.ln ≡ some n
  pub name : row.name ≡ truncate_runes (sanitize_string st.name) (pos 48)
  pub kind : (row.kind ≡ codes "HTTPS (L7)") ↔ (st.kind ≡ https)
  pub listen : row.listen ≡ addr_of st.kind st.port
  pub backend : row.backend ≡ codes "127.0.0.1:" ++ itoa st.backend
  pub status : (row.status ≡ codes "● OK") ↔ (st.error_count ≡ 0)
  pub active : row.active ≡ itoa st.active_conn
  pub total : row.total ≡ itoa (pos st.total_conn)
  pub received : row.traffic.0 ≡ format_bytes quotient st.bytes_in
  pub sent : row.traffic.1 ≡ format_bytes quotient st.bytes_out

abbrev first : Str → ℕ
first [] = 0
first (c ∷ s) = c

kind_cell : (k : Kind) → (kind_text k ≡ codes "HTTPS (L7)") ↔ (k ≡ https)
unfolding kind_text
kind_cell https = ground arith
kind_cell relay = (λ e. absurd (omega (arith, ap first e)), λ e. cc)

listen_cell : (k : Kind) (port : ℤ) → listen_text k port ≡ addr_of k port
unfolding listen_text addr_of
listen_cell https port = refl
listen_cell relay port = refl

status_cell : (n : ℕ) → (status_text n ≡ codes "● OK") ↔ (n ≡ 0)
unfolding status_text
status_cell zero = (λ e. refl, λ e. refl)
status_cell (suc n) = (λ e. absurd (omega (arith, ap first e)), λ e. absurd (omega (arith, e)))

Shows-Tells :
    (quotient : ℕ → ℕ → Str) (now : ℕ) (s : Service) (n : ℕ) (x : ListenerMetrics)
    → Shows s n x
    → Tells quotient s n (render_row quotient now x)
unfolding render_row metrics_of
Shows-Tells quotient now s n x v =
    subst (λ y. Tells quotient s n (render_row quotient now y)) (sym v.counters)
      (record {
        is_up = v.is_up;
        k = v.k;
        st = v.st;
        entry = v.entry;
        key_is = v.key_is;
        ln = v.ln;
        name = refl;
        kind = kind_cell v.st.kind;
        listen = listen_cell v.st.kind v.st.port;
        backend = refl;
        status = status_cell v.st.error_count;
        active = refl;
        total = refl;
        received = refl;
        sent = refl;
      })

-- The table has a row for each open socket of the service that tells of it, and no row that tells of no such
-- socket.
pub record Displays (quotient : ℕ → ℕ → Str) (s : Service) (view : View) : Type 0 where
  pub each :
      (n : ℕ) → is_open n s.events ≡ true → (row : Row) × IsRow row view × Tells quotient s n row
  pub only : (row : Row) → IsRow row view → (n : ℕ) × Tells quotient s n row

In-render_rows :
    (quotient : ℕ → ℕ → Str) (now : ℕ) (x : ListenerMetrics) (ls : List ListenerMetrics)
    → In x ls
    → In (render_row quotient now x) (render_rows quotient now ls)
unfolding render_rows
In-render_rows quotient now x [] i = elim i [ ]
In-render_rows quotient now x (l ∷ ls) (inl e) = inl (ap (render_row quotient now) e)
In-render_rows quotient now x (l ∷ ls) (inr i) = inr (In-render_rows quotient now x ls i)

render_rows-In :
    (quotient : ℕ → ℕ → Str) (now : ℕ) (row : Row) (ls : List ListenerMetrics)
    → In row (render_rows quotient now ls)
    → (x : ListenerMetrics) × In x ls × (row ≡ render_row quotient now x)
unfolding render_rows
render_rows-In quotient now row [] i = elim i [ ]
render_rows-In quotient now row (l ∷ ls) (inl e) = (l, inl refl, e)
render_rows-In quotient now row (l ∷ ls) (inr i) =
    let (x, at, e) = render_rows-In quotient now row ls i in (x, inr at, e)

IsRow-render_status :
    (quotient : ℕ → ℕ → Str) (now : ℕ) (r : StatusReport) (ls : List ListenerMetrics) (row : Row)
    → r.listeners ≡ ls
    → (In row (render_rows quotient now ls) → IsRow row (render_status quotient now r))
      × (IsRow row (render_status quotient now r) → In row (render_rows quotient now ls))
unfolding render_status render_rows
IsRow-render_status quotient now r [] row e = rw e (λ i. i, λ i. i)
IsRow-render_status quotient now r (l ∷ ls) row e = rw (e, render_status) (λ i. i, λ i. i)

-- The state that a status query meets: a daemon after any run, and the report that it makes.
abbrev pub service_of : Env → Config → Runtime → World → Tick → List Wake → Service
service_of env cfg rt w first wakes = (run env cfg rt w first wakes).1.service

abbrev pub report_of : ℕ → ℕ → Service → StatusReport
report_of uptime now s = status_report version uptime now s

run-Displays :
    (env : Env) (cfg : Config) (rt : Runtime) (w : World) (first : Tick) (wakes : List Wake)
    (uptime made : ℕ) (quotient : ℕ → ℕ → Str) (now : ℕ)
    → let s = service_of env cfg rt w first wakes in
      Displays quotient s (render_status quotient now (report_of uptime made s))
run-Displays env cfg rt w first wakes uptime made quotient now =
    let s = service_of env cfg rt w first wakes in
    let r = report_of uptime made s in
    let (only, each) = run-Shows env cfg rt w first wakes version uptime made in
    record {
      each = λ n up.
          let (x, i, shows) = each n up in
          let row = render_row quotient now x in
          (
            row,
            (IsRow-render_status quotient now r r.listeners row refl).0
                (In-render_rows quotient now x r.listeners i),
            Shows-Tells quotient now s n x shows,
          );
      only = λ row i.
          let (x, at, e) =
            render_rows-In quotient now row r.listeners
              ((IsRow-render_status quotient now r r.listeners row refl).1 i) in
          let (n, shows) = only x at in
          (n, subst (Tells quotient s n) (sym e) (Shows-Tells quotient now s n x shows));
    }

ask-status :
    (o : Outside) (env : Env) (args : List Str) (seen : System) (rt : Runtime) (w : World)
    (first : Tick) (wakes : List Wake) (r : StatusReport)
    → let f = flags_of o env args in
      f.is_version ≡ false
      → f.is_status ≡ true
      → is_empty f.socket ≡ false
      → query_status o.json o.wire f.socket ≡ ok r
      → (run_program o env args seen rt w first wakes).0
        ≡ showed_status (render_status o.quotient o.clock r)
unfolding run_program status_mode ask status_outcome socket_path
ask-status o env args seen rt w first wakes r v s given e = rw (v, s, given, e) refl

-- The status mode, without the flag for the version and with the flag for the socket, when it reaches a daemon
-- there, whatever that daemon has been through: it prints a table in which each socket that the service has open
-- has a row with the name, the kind, the address, the backend and the counters of the entry that holds the socket,
-- marked OK where the entry has counted no error, and every row is one of these, if the report travels as JSON and
-- has at most 2^20 bytes.
pub run_program-Displays :
    (o : Outside) (env : Env) (args : List Str) (seen : System) (rt : Runtime) (w : World)
    (first : Tick) (wakes : List Wake) (there : Env) (cfg : Config) (rt' : Runtime) (w' : World)
    (first' : Tick) (wakes' : List Wake) (uptime made : ℕ)
    → let f = flags_of o env args in
      let s = service_of there cfg rt' w' first' wakes' in
      let r = report_of uptime made s in
      f.is_version ≡ false
      → f.is_status ≡ true
      → is_empty f.socket ≡ false
      → Carries o.json r
      → length (o.json.marshal r) ≤ max_answer
      → o.wire.dial f.socket ≡ ok (handle o.json r)
      → (view : View) × ((run_program o env args seen rt w first wakes).0 ≡ showed_status view)
        × Displays o.quotient s view
run_program-Displays o env args seen rt w first wakes there cfg rt' w' first' wakes' uptime made
      is_v is_s given carries fits reached =
    let f = flags_of o env args in
    let r = report_of uptime made (service_of there cfg rt' w' first' wakes') in
    let got = (query_status-handle o.json o.wire f.socket r carries reached).0 fits in
    (
      render_status o.quotient o.clock r,
      ask-status o env args seen rt w first wakes r is_v is_s given got,
      run-Displays there cfg rt' w' first' wakes' uptime made o.quotient o.clock,
    )
