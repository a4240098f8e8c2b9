-- ===== src/Proxy/Listen.antt =====
-- listener.go `tryListen`, and service.go `startHTTPServer`, `stopListener`, `Shutdown` and
-- `GetMetricsSnapshot`.
use nas_conn_plus.Base.{
  ℕ, suc, ℤ, pos, leb_ℤ, Str, List, [], ◌∷◌, Option, none, some, Bool, true, false, not, Map,
  Result, ok, err, if◌then◌else◌,
}
use nas_conn_plus.Config.{Config}
use nas_conn_plus.Scanner.Prober.{Machine}
use nas_conn_plus.Proxy.{
  Kind, https, relay, Key, ListenerState, Want, Service, Event, opened, closed, serving, relaying,
  server_shutdown,
}

-- The machine with its network stack: `some e` is the error of `net.Listen` or of `listenV6Only`.
pub record Host : Type 0 where
  pub machine : Machine
  pub open machine use *
  pub bind : ℕ → Kind → ℤ → Option Str

abbrev pub is_https : Kind → Bool
is_https https = true
is_https relay = false

abbrev pub log : Event → Service → Service
log e s = record s { events = e ∷ s.events }

abbrev pub later : ℕ → Service → Service
later calls s = record s { runtime = record (s.runtime) { calls = calls } }

unfoldable pub limit : ℤ → ℤ
limit n = if leb_ℤ n (pos 0) then pos 2048 else n

-- The state of a listener before and after its socket is there.
unfoldable pub fresh_state : Want → ℕ → Option ℕ → ℤ → Bool → ListenerState
fresh_state w now ln max_conns conflict = record {
  kind = w.kind;
  name = w.name;
  port = w.port;
  backend = w.backend;
  ln = ln;
  max_conns = max_conns;
  http_server = false;
  conflict = conflict;
  stop = if conflict then none else some false;
  active_conn = pos 0;
  total_conn = 0;
  error_count = 0;
  bytes_in = 0;
  bytes_out = 0;
  started_at = now;
}

bound : Want → ℕ → ℕ → Config → Option Str → Result Str ListenerState
unfolding fresh_state limit
bound w now socket cfg (some e) = err e
bound w now socket cfg none =
    ok (fresh_state w now (some socket) (limit cfg.max_conns_per_listener) false)

after_bind : ℕ → Option Str → Service → Service
after_bind socket (some e) s = later (suc socket) s
after_bind socket none s = log (opened socket) (later (suc socket) s)

-- `tryListen`: the clock is read, then the port is bound.
unfoldable pub try_listen : Host → Want → Service → Result Str ListenerState × Service
unfolding bound after_bind
try_listen o w s =
    let socket = suc s.runtime.calls in
    let answer = o.bind socket w.kind w.port in
    (bound w (o.now s.runtime.calls) socket s.cfg answer, after_bind socket answer s)

-- The entry that remembers a port which could not be bound.
unfoldable pub conflict_state : Want → ListenerState
unfolding fresh_state
conflict_state w = fresh_state w 0 none (pos 0) true

-- `startHTTPServer`, or `go acceptRelayLoop`.
unfoldable pub start_serving : ListenerState → ListenerState
start_serving st = if is_https st.kind then record st { http_server = true } else st

abbrev pub serving_event : Kind → ℕ → Event
serving_event https n = serving n
serving_event relay n = relaying n

log_socket : (ℕ → Event) → Option ℕ → List Event → List Event
log_socket f none es = es
log_socket f (some n) es = f n ∷ es

-- `stopListener`: the HTTP server is shut down first, then the socket is closed.
unfoldable pub stop_listener : ListenerState → List Event → List Event
unfolding log_socket
stop_listener st es =
    log_socket closed st.ln (if st.http_server then log_socket server_shutdown st.ln es else es)

unfoldable pub stop_all : Map Key ListenerState → List Event → List Event
unfolding stop_listener
stop_all [] es = es
stop_all ((k, st) ∷ m) es = stop_all m (stop_listener st es)

-- `Shutdown`: the maps are emptied, and every listener of the snapshot is stopped.
unfoldable pub shutdown : Service → Service
unfolding stop_all
shutdown s = record s { listeners = []; missing = []; events = stop_all s.listeners s.events }

-- `ListenerMetrics`.
pub record ListenerMetrics : Type 0 where
  pub kind : Kind
  pub name : Str
  pub port : ℤ
  pub backend : ℤ
  pub active_conn : ℤ
  pub total_conn : ℕ
  pub error_count : ℕ
  pub bytes_in : ℕ
  pub bytes_out : ℕ
  pub started_at : ℕ

-- `Metrics`.
unfoldable pub metrics_of : ListenerState → ListenerMetrics
metrics_of st = record {
  kind = st.kind;
  name = st.name;
  port = st.port;
  backend = st.backend;
  active_conn = st.active_conn;
  total_conn = st.total_conn;
  error_count = st.error_count;
  bytes_in = st.bytes_in;
  bytes_out = st.bytes_out;
  started_at = st.started_at;
}

unfoldable pub snapshot : Map Key ListenerState → List ListenerMetrics
unfolding metrics_of
snapshot [] = []
snapshot ((k, st) ∷ m) =
    let rest = snapshot m in if not st.conflict then metrics_of st ∷ rest else rest

-- `GetMetricsSnapshot`.
unfoldable pub get_metrics_snapshot : Service → List ListenerMetrics
unfolding snapshot
get_metrics_snapshot s = snapshot s.listeners
