-- ===== src/Proxy/Sockets.antt =====
-- Which sockets are open, from the history of the service, and who holds them.
pub mod Calls
pub mod Track
pub mod Polls
pub mod Shutdown
pub mod Changes
pub mod Served
use nas_conn_plus.Base.{
  ℕ, suc, ◌≤◌, ◌≡◌, List, [], ◌∷◌, Option, none, some, Bool, true, false, not, Map, get, ◌==◌,
  if◌then◌else◌,
}
use nas_conn_plus.Proxy.Listen.{is_https}
use nas_conn_plus.Proxy.{
  Kind, Event, opened, closed, serving, relaying, server_shutdown, Key, key_eq, ListenerState,
  Service,
}

-- The newest event of the socket decides.
unfoldable pub is_open : ℕ → List Event → Bool
is_open n [] = false
is_open n (opened m ∷ es) = if m == n then true else is_open n es
is_open n (closed m ∷ es) = if m == n then false else is_open n es
is_open n (e ∷ es) = is_open n es

-- Whether a socket is served in the way of the kind: an HTTP server, or an accept loop, was started on it, and
-- since then neither was the server shut down nor the socket closed.
unfoldable pub is_served : Kind → ℕ → List Event → Bool
is_served kind n [] = false
is_served kind n (serving m ∷ es) = if m == n then is_https kind else is_served kind n es
is_served kind n (relaying m ∷ es) = if m == n then not (is_https kind) else is_served kind n es
is_served kind n (server_shutdown m ∷ es) = if m == n then false else is_served kind n es
is_served kind n (closed m ∷ es) = if m == n then false else is_served kind n es
is_served kind n (e ∷ es) = is_served kind n es

-- The socket of the entry `k`.
abbrev pub socket_of : Option ListenerState → Option ℕ
socket_of none = none
socket_of (some st) = st.ln

abbrev pub ln_at : Key → Map Key ListenerState → Option ℕ
ln_at k m = socket_of (get k m)

-- The open sockets are those that the entries hold, each by one key; conflicts hold none.
pub record Tracked (m : Map Key ListenerState) (es : List Event) (calls : ℕ) : Type 0 where
  pub held : (n : ℕ) → is_open n es ≡ true → (k : Key) × (ln_at k m ≡ some n)
  pub is_live : (k : Key) (n : ℕ) → ln_at k m ≡ some n → is_open n es ≡ true
  pub one_key : (j k : Key) (n : ℕ) → ln_at j m ≡ some n → ln_at k m ≡ some n → j ≡ k
  pub known : (n : ℕ) → is_open n es ≡ true → n ≤ calls
  pub quiet : (k : Key) (st : ListenerState) → get k m ≡ some st → st.conflict ≡ true → st.ln ≡ none

abbrev pub NoLeak : Service → Type 0
NoLeak s = Tracked s.listeners s.events s.runtime.calls

-- Each listener with a socket is served: an HTTPS listener has its HTTP server, a relay its accept loop.
pub record Works (st : ListenerState) (n : ℕ) (es : List Event) : Type 0 where
  pub server : st.http_server ≡ is_https st.kind
  pub served : is_served st.kind n es ≡ true

abbrev pub AllWork : Map Key ListenerState → List Event → Type 0
AllWork m es =
    (k : Key) (st : ListenerState) (n : ℕ) → get k m ≡ some st → st.ln ≡ some n → Works st n es
