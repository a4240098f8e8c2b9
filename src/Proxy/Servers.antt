-- ===== src/Proxy/Servers.antt =====
-- service.go: the settings of the transport, of TLS and of the HTTPS servers. A `Duration` is in nanoseconds.
use nas_conn_plus.Base.{
  ℕ, ◌*◌, ℤ, Str, codes, itoa, ◌++◌, Option, none, some, Bool, true, Result, err,
}
use nas_conn_plus.Config.{Config}
use nas_conn_plus.Proxy.{Kind, https, relay, ListenerState}
use nas_conn_plus.Proxy.Relay.{second}
use nas_conn_plus.Proxy.Http.{response_header_timeout, seconds_of}

-- `http.Transport`, with the two fields of its dialer.
pub record Transport : Type 0 where
  pub dial_timeout : ℕ
  pub keep_alive : ℕ
  pub force_attempt_http2 : Bool
  pub max_idle_conns : ℕ
  pub max_idle_conns_per_host : ℕ
  pub max_conns_per_host : ℕ
  pub idle_conn_timeout : ℕ
  pub tls_handshake_timeout : ℕ
  pub response_header_timeout : ℤ
  pub expect_continue_timeout : ℕ
  pub max_response_header_bytes : ℕ
  pub disable_compression : Bool

-- The transport that `NewService` makes.
unfoldable pub transport_of : Option Config → Transport
transport_of cfg = record {
  dial_timeout = 5 * second;
  keep_alive = 30 * second;
  force_attempt_http2 = true;
  max_idle_conns = 128;
  max_idle_conns_per_host = 32;
  max_conns_per_host = 32;
  idle_conn_timeout = 90 * second;
  tls_handshake_timeout = 5 * second;
  response_header_timeout = response_header_timeout cfg;
  expect_continue_timeout = second;
  max_response_header_bytes = 32 * 1024;
  disable_compression = true;
}

-- `http.Server` of an HTTPS listener; no `WriteTimeout` is set.
pub record HttpsServer : Type 0 where
  pub min_tls_version : ℕ
  pub read_header_timeout : ℕ
  pub idle_timeout : ℤ
  pub write_timeout : ℕ
  pub max_header_bytes : ℕ

-- 0x0303 is `tls.VersionTLS12`.
unfoldable pub https_server : Config → HttpsServer
https_server cfg = record {
  min_tls_version = 0x0303;
  read_header_timeout = 10 * second;
  idle_timeout = seconds_of cfg.idle_seconds;
  write_timeout = 0;
  max_header_bytes = 64 * 1024;
}

-- `addrOf` and `addr`.
unfoldable pub addr_of : Kind → ℤ → Str
unfolding itoa
addr_of https port = codes "https :" ++ itoa port
addr_of relay port = codes "[::]:" ++ itoa port

unfoldable pub addr : ListenerState → Str
addr st = addr_of st.kind st.port

-- What a connection offers beyond `net.Conn`: `none` where it has no such method, else the answer.
pub record Inner : Type 0 where
  pub close_read : Option (Option Str)
  pub close_write : Option (Option Str)
  pub set_keep_alive : Option (Bool → Option Str)
  pub set_keep_alive_period : Option (ℤ → Option Str)
  pub syscall_conn : Option (Result Str ℕ)

abbrev or_nil : Option (Option Str) → Option Str
or_nil none = none
or_nil (some answer) = answer

-- The methods of `countingConn` that pass a call on; where there is nothing to call they succeed, but for
-- `SyscallConn`.
unfoldable pub close_read : Inner → Option Str
close_read c = or_nil c.close_read

unfoldable pub close_write : Inner → Option Str
close_write c = or_nil c.close_write

unfoldable pub set_keep_alive : Bool → Inner → Option Str
set_keep_alive on c = elim c.set_keep_alive [ none ↦ none | some call ↦ call on ]

unfoldable pub set_keep_alive_period : ℤ → Inner → Option Str
set_keep_alive_period d c = elim c.set_keep_alive_period [ none ↦ none | some call ↦ call d ]

unfoldable pub syscall_conn : Inner → Result Str ℕ
syscall_conn c = elim c.syscall_conn [
  | none ↦ err (codes "underlying conn does not implement syscall.Conn")
  | some answer ↦ answer
]

-- What a response writer offers beyond `http.ResponseWriter`: the connection and the channel are numbers.
pub record Writer : Type 0 where
  pub can_flush : Bool
  pub hijack : Option (Result Str ℕ)
  pub close_notify : Option ℕ

-- Whether `Flush` reaches the writer.
unfoldable pub flush : Writer → Bool
flush w = w.can_flush

unfoldable pub hijack : Writer → Result Str ℕ
hijack w = elim w.hijack [
  | none ↦ err (codes "underlying ResponseWriter does not implement http.Hijacker")
  | some answer ↦ answer
]

-- `CloseNotify`: `none` is a nil channel, on which nothing ever arrives.
unfoldable pub close_notify : Writer → Option ℕ
close_notify w = w.close_notify
