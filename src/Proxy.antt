-- ===== src/Proxy.antt =====
-- internal/proxy: the service's state (service.go, listener.go). A listener's key "kind:port" is the
-- pair; a socket is named by the number of the call that opened it.
pub mod Listen
pub mod Wants
pub mod Reconcile
pub mod Limit
pub mod Life
pub mod Tests
pub mod Sockets
pub mod Http
pub mod Relay
pub mod Buffers
pub mod Servers
use nas_conn_plus.Base.{
  ℕ, ℤ, pos, leb_ℤ, eqb_ℤ, eqb_ℤ_iff, int_eq, Eq, Str, ◌≡◌, ◌↔◌, List, [], ◌∷◌, Option, none, some,
  Bool, true, false, not, ◌&&◌, ◌||◌, Map, get, arith,
}
use nas_conn_plus.Config.{Config}
use nas_conn_plus.Scanner.{Runtime}

pub data Kind : Type 0 where
  https relay : Kind

abbrev pub kind_beq : Kind → Kind → Bool
kind_beq https https = true
kind_beq https relay = false
kind_beq relay https = false
kind_beq relay relay = true

abbrev pub Key : Type 0
Key = Kind × ℤ

unfoldable pub key_beq : Key → Key → Bool
key_beq (k, p) (j, q) = kind_beq k j && eqb_ℤ p q

pub key_beq_iff : (a b : Key) → (key_beq a b ≡ true) ↔ (a ≡ b)
unfolding key_beq
key_beq_iff (https, p) (https, q) = ground (arith, eqb_ℤ_iff p q)
key_beq_iff (https, p) (relay, q) = ground arith
key_beq_iff (relay, p) (https, q) = ground arith
key_beq_iff (relay, p) (relay, q) = ground (arith, eqb_ℤ_iff p q)

instance abbrev pub key_eq : Eq Key
key_eq = record { beq = key_beq; beq_iff = key_beq_iff }

-- `key`.
abbrev pub key : Kind → ℤ → Key
key kind port = (kind, port)

-- `listenerState`: `stop` is a nil channel, or whether the channel is closed.
pub record ListenerState : Type 0 where
  pub kind : Kind
  pub name : Str
  pub port : ℤ
  pub backend : ℤ
  pub ln : Option ℕ
  pub max_conns : ℤ
  pub http_server : Bool
  pub conflict : Bool
  pub stop : Option Bool
  pub active_conn : ℤ
  pub total_conn : ℕ
  pub error_count : ℕ
  pub bytes_in : ℕ
  pub bytes_out : ℕ
  pub started_at : ℕ

pub record Want : Type 0 where
  pub kind : Kind
  pub name : Str
  pub port : ℤ
  pub backend : ℤ
  pub tls : Bool

-- What the service does to the outside, and what it logs of it.
pub data Event : Type 0 where
  opened closed : ℕ → Event
  serving relaying server_shutdown : ℕ → Event
  added resolved stopped yielded conflict_warned : Key → Event

-- `Service`. The events are newest first.
pub record Service : Type 0 where
  pub cfg : Config
  pub listeners : Map Key ListenerState
  pub missing : Map Key ℕ
  pub warned_conflict : Map Key ℕ
  pub runtime : Runtime
  pub events : List Event

-- `isOurListenerPortLocked`.
owns_port : ℤ → Map Key ListenerState → Bool
owns_port port [] = false
owns_port port ((k, st) ∷ m) = (eqb_ℤ st.port port && not st.conflict) || owns_port port m

unfoldable pub is_our_listener_port : Service → ℤ → Bool
unfolding owns_port
is_our_listener_port s port = owns_port port s.listeners

-- `isOurListener`.
unfoldable pub is_our_listener : Service → Kind → ℤ → Bool
unfolding get
is_our_listener s kind port = elim (get (key kind port) s.listeners) [
  | none ↦ false
  | some st ↦ not st.conflict
]
