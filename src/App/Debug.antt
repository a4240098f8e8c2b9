-- ===== src/App/Debug.antt =====
-- app.go: the debug server, which `Run` starts on an address of the machine itself only.
use nas_conn_plus.Base.{
  ℕ, Str, codes, str_beq, str_beq_iff, is_empty, ◌≡◌, ◌⊎◌, inl, inr, List, [], ◌∷◌, Option, none,
  some, Bool, true, false, not, ◌||◌, if◌then◌else◌, Option-cases, arith,
}

-- `isLoopbackDebugAddr`, on `net.SplitHostPort` (the host) and on what `net.ParseIP` and `IsLoopback` say.
unfoldable pub is_loopback_debug_addr : (Str → Option Str) → (Str → Option Bool) → Str → Bool
unfolding str_beq
is_loopback_debug_addr split_host loopback addr = elim (split_host addr) [
  | none ↦ false
  | some host ↦
      if is_empty host || str_beq host (codes "localhost")
      then not (is_empty host)
      else (elim (loopback host) [ none ↦ false | some b ↦ b ])
]

-- `http.Server` with the paths of its handlers; the times are in seconds.
pub record DebugServer : Type 0 where
  pub addr : Str
  pub paths : List Str
  pub read_header_timeout : ℕ
  pub read_timeout : ℕ
  pub write_timeout : ℕ
  pub idle_timeout : ℕ
  pub max_header_bytes : ℕ

abbrev make_server : Str → DebugServer
make_server addr = record {
  addr = addr;
  paths =
      codes "/metrics"
      ∷ codes "/debug/pprof/"
      ∷ codes "/debug/pprof/cmdline"
      ∷ codes "/debug/pprof/profile"
      ∷ codes "/debug/pprof/symbol"
      ∷ codes "/debug/pprof/trace"
      ∷ [];
  read_header_timeout = 5;
  read_timeout = 10;
  write_timeout = 10;
  idle_timeout = 30;
  max_header_bytes = 1048576;
}

module _ (split_host : Str → Option Str) (loopback : Str → Option Bool) where
  -- The server, if the flag names an address and it is not refused.
  unfoldable pub debug_server : Str → Option DebugServer
  unfolding is_loopback_debug_addr
  debug_server addr =
      if is_empty addr
      then none
      else if is_loopback_debug_addr split_host loopback addr
      then some (make_server addr)
      else none

  -- The address names the machine itself.
  abbrev pub IsLocal : Str → Type 0
  IsLocal addr =
      (host : Str) × (split_host addr ≡ some host)
      × ((host ≡ codes "localhost") ⊎ (loopback host ≡ some true))

  pub debug_server-IsLocal :
      (addr : Str) (srv : DebugServer) → debug_server addr ≡ some srv → IsLocal srv.addr
  unfolding debug_server is_loopback_debug_addr
  debug_server-IsLocal addr srv e = elim (Option-cases (split_host addr)) [
    | inl none_there ↦ ground (arith, none_there)
    | inr (host, at) ↦
        (host, ground (arith, at), ground (arith, at, str_beq_iff host (codes "localhost")))
  ]
