-- ===== src/Proxy/Http.antt =====
-- service.go: `NewService`, and the handler of an HTTPS listener (`startHTTPServer`).
pub mod Tests
pub mod Counting
pub mod Headers
use nas_conn_plus.Base.{
  int64, ℕ, zero, suc, ◌+◌, ◌-◌, ◌*◌, ◌%◌, ◌^◌, ℤ, pos, negsuc, ◌+ℤ◌, ltb, Str, codes, str_beq,
  str_eq, is_empty, itoa, List, [], ◌∷◌, ◌++◌, Option, none, some, Bool, true, false, not, ◌&&◌,
  Map, put, delete, if◌then◌else◌,
}
use nas_conn_plus.Metrics.{u64}
use nas_conn_plus.Config.{Config, HstsConfig}
use nas_conn_plus.Scanner.{Runtime}
use nas_conn_plus.Proxy.{Service, ListenerState, Want}

-- `NewService`: nothing is served yet.
unfoldable pub new_service : Config → Runtime → Service
new_service cfg rt = record {
  cfg = cfg;
  listeners = [];
  missing = [];
  warned_conflict = [];
  runtime = rt;
  events = [];
}

-- `time.Duration(n) * time.Second`, for a positive number: it wraps around.
seconds : ℕ → ℤ
unfolding int64
seconds n = int64 (u64 (n * 1000000000))

-- The same for any number.
unfoldable pub seconds_of : ℤ → ℤ
unfolding seconds int64
seconds_of (pos n) = seconds n
seconds_of (negsuc n) = int64 (u64 (2 ^ 64 - u64 ((n + 1) * 1000000000)))

timeout_of : ℤ → ℤ
unfolding seconds
timeout_of (pos zero) = seconds 300
timeout_of (pos (suc n)) = seconds (suc n)
timeout_of (negsuc n) = pos 0

-- The timeout of the transport for the headers of an answer; 0 is none.
unfoldable pub response_header_timeout : Option Config → ℤ
unfolding timeout_of
response_header_timeout none = seconds 300
response_header_timeout (some cfg) = timeout_of cfg.response_header_timeout_seconds

pub record Request : Type 0 where
  pub host : Str
  pub path : Str
  pub remote_addr : Str
  pub headers : Map Str Str

-- What the handler calls: `net.SplitHostPort` (the host), whether `net.ParseIP` succeeds, and
-- `SetURL` and `SetXForwarded` of `httputil.ProxyRequest`, from the request that came in.
pub record Net : Type 0 where
  pub split_host : Str → Option Str
  pub is_ip : Str → Bool
  pub set_url : ℤ → Request → Request
  pub set_x_forwarded : Request → Request → Request

-- Paths of OpenAI's interface are completed.
normalise_path : Str → Str
unfolding str_beq
normalise_path path =
    if str_beq path (codes "/chat/completions")
    then codes "/v1/chat/completions"
    else if str_beq path (codes "/models")
    then codes "/v1/models"
    else path

abbrev pub set_header : Str → Str → Request → Request
set_header name value r = record r { headers = put name value r.headers }

abbrev pub real_ip : Str
real_ip = codes "X-Real-IP"

set_real_ip : Option Str → Request → Request
set_real_ip none r = record r { headers = delete real_ip r.headers }
set_real_ip (some ip) r = set_header real_ip ip r

abbrev set_forwarded : Want → Request → Request → Request
set_forwarded w input r = set_header (codes "X-Forwarded-Host") input.host (
    set_header (codes "X-Forwarded-Port") (itoa w.port)
      (set_header (codes "X-Forwarded-Proto") (codes "https") r))

-- `Rewrite`: the request that goes to the backend, from the one that came in and the copy of it that the
-- proxy has made.
unfoldable pub rewrite : Net → Want → Request → Request → Request
unfolding normalise_path set_real_ip itoa
rewrite net w input copy =
    let sent = net.set_url w.backend copy in
    let named = record sent { path = normalise_path sent.path; host = input.host } in
    set_real_ip (net.split_host input.remote_addr)
      (set_forwarded w input (net.set_x_forwarded input named))

bare_host : Net → Str → Str
bare_host net host = elim (net.split_host host) [ none ↦ host | some h ↦ h ]

hsts_value : HstsConfig → Str
unfolding itoa
hsts_value h =
    let age = codes "max-age=" ++ itoa h.max_age in
    if h.include_subdomains then age ++ codes "; includeSubDomains" else age

-- The header `Strict-Transport-Security` of an answer, if it is set; `has_cert` tells whether a certificate
-- is loaded.
unfoldable pub hsts : Net → Config → Bool → Str → Option Str
unfolding bare_host hsts_value
hsts net cfg has_cert host =
    if cfg.hsts.enabled
    then (if not (net.is_ip (bare_host net host)) && has_cert
        then some (hsts_value cfg.hsts)
        else none)
    else none

-- What the reverse proxy does while it serves a request: reads of the body and writes of the answer, with
-- the number of bytes that each returns, a copy of the answer by the `ReadFrom` of the wrapped writer, if it
-- has one, reads and writes of the connection that `Hijack` has returned, as for a websocket, or the call of its
-- error handler.
pub data Io : Type 0 where
  reads writes reads_from raw_reads raw_writes : ℤ → Io
  fails : Io

-- `uint64(n)` is added where `n` is positive.
unfoldable pub count : ℤ → ℕ → ℕ
count (pos n) total = u64 (total + n)
count (negsuc n) total = total

-- One step, under `countingReadCloser`, `countingResponseWriter` and `ErrorHandler`. `Hijack` returns the
-- connection itself, with no counter around it.
unfoldable pub run_io : Io → ListenerState → ListenerState
unfolding count
run_io (reads n) st = record st { bytes_in = count n st.bytes_in }
run_io (writes n) st = record st { bytes_out = count n st.bytes_out }
run_io (reads_from n) st = record st { bytes_out = count n st.bytes_out }
run_io (raw_reads n) st = st
run_io (raw_writes n) st = st
run_io fails st = record st { error_count = u64 (st.error_count + 1) }

unfoldable pub run_ios : List Io → ListenerState → ListenerState
run_ios [] st = st
run_ios (io ∷ ios) st = run_ios ios (run_io io st)

-- `activeConn.Add(1)` and `totalConn.Add(1)`.
unfoldable pub enter : ListenerState → ListenerState
enter st = record st { active_conn = st.active_conn +ℤ pos 1; total_conn = u64 (st.total_conn + 1) }

-- `activeConn.Add(-1)`.
unfoldable pub leave : ListenerState → ListenerState
leave st = record st { active_conn = st.active_conn +ℤ negsuc 0 }

-- The wrapped handler.
unfoldable pub serve_http : List Io → ListenerState → ListenerState
unfolding enter leave
serve_http ios st = leave (run_ios ios (enter st))
