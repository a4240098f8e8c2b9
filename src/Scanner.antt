-- ===== src/Scanner.antt =====
-- internal/scanner: the classified listening ports, and what the program asks of the machine around it.
-- A `map[int]bool`, whose values are only ever `true`, is the list of its keys.
pub mod Prober
pub mod Flight
pub mod Table
pub mod Owners
pub mod System
pub mod Report
use nas_conn_plus.Base.{ℕ, ℤ, Str, List, [], Option, Bool, Map}
use nas_conn_plus.Metrics.{Metrics}

-- `Result`.
pub record ScanResult : Type 0 where
  pub v4_wild : List ℤ
  pub v6_any : List ℤ
  pub v6_others : List ℤ
  pub pids : Map ℤ ℤ
  pub names : Map ℤ Str

unfoldable pub new_result : ScanResult
new_result = record { v4_wild = []; v6_any = []; v6_others = []; pids = []; names = [] }

pub data Host : Type 0 where
  v4_loopback v6_loopback : Host

-- One attempt to talk to a port: whether the TLS handshake, the dial and the write succeed, and the
-- bytes of the first read (`none` is its error).
pub record Exchange : Type 0 where
  pub tls_ok : Bool
  pub dial_ok : Bool
  pub write_ok : Bool
  pub reply : Option Str

-- `probeEntry`.
pub record ProbeEntry : Type 0 where
  pub is_http : Bool
  pub updated_at : ℕ

-- The package variables of scanner and metrics, and how often the outside has been asked.
pub record Runtime : Type 0 where
  pub probe_cache : Map ℤ ProbeEntry
  pub metrics : Metrics
  pub calls : ℕ
