-- ===== src/Proxy/Life.antt =====
-- The life of a listener, as the service promises it: what one poll may do to the slot of a key.
pub mod Rounds
pub mod Edges
pub mod Refines
pub mod Leaves
pub mod Serves
use nas_conn_plus.Base.{
  ℕ, suc, ℤ, pos, ◌≤ℤ◌, ◌<ℤ◌, int_eq, ◌≡◌, ◌⊎◌, Option, none, some, Bool, true, false, ◌&&◌, get,
  mem, if◌then◌else◌,
}
use nas_conn_plus.Scanner.{ScanResult}
use nas_conn_plus.Proxy.{Kind, Key, key_eq, ListenerState, Want, Service}
use nas_conn_plus.Proxy.Reconcile.{is_relay}

-- Nothing, a port that could not be bound, or a listener and the polls it has been missing for.
pub data Slot : Type 0 where
  absent conflicted : Slot
  live : ListenerState → ℕ → Slot

abbrev pub count : Option ℕ → ℕ
count none = 0
count (some n) = n

abbrev pub slot_of : Option ListenerState → Option ℕ → Slot
slot_of none n = absent
slot_of (some st) n = if st.conflict then conflicted else live st (count n)

unfoldable pub slot : Key → Service → Slot
slot k s = slot_of (get k s.listeners) (get k s.missing)

-- A relay gives way when another process listens on the IPv6 wildcard address.
abbrev pub yields : ScanResult → Key → Bool
yields res (kind, port) = is_relay kind && mem port res.v6_others

-- The listener serves the want, and is none that was there before.
pub record MadeFor (w : Want) (st : ListenerState) : Type 0 where
  pub kind : st.kind ≡ w.kind
  pub port : st.port ≡ w.port
  pub backend : st.backend ≡ w.backend
  pub live : st.conflict ≡ false

-- The edges of one poll, for a key with the want `v`, if any.
-- `busy` tells whether the port of a want could not be bound.
pub data Edge (busy : Want → Type 0) (v : Option Want) (gives_way : Bool) (grace : ℤ) (a b : Slot)
    : Type 0 where
  rest : v ≡ none → a ≡ absent → b ≡ absent → Edge busy v gives_way grace a b
  start :
      (w : Want) (st : ListenerState)
      → v ≡ some w
      → (a ≡ absent) ⊎ (a ≡ conflicted)
      → MadeFor w st
      → b ≡ live st 0
      → Edge busy v gives_way grace a b
  contend :
      (w : Want)
      → v ≡ some w
      → busy w
      → (a ≡ absent) ⊎ (a ≡ conflicted)
      → b ≡ conflicted
      → Edge busy v gives_way grace a b
  hold :
      (w : Want) (st : ListenerState) (n : ℕ)
      → v ≡ some w
      → a ≡ live st n
      → b ≡ live st 0
      → Edge busy v gives_way grace a b
  miss :
      (st : ListenerState) (n : ℕ)
      → v ≡ none
      → a ≡ live st n
      → pos (suc n) <ℤ grace
      → b ≡ live st (suc n)
      → Edge busy v gives_way grace a b
  expire :
      (st : ListenerState) (n : ℕ)
      → v ≡ none
      → a ≡ live st n
      → grace ≤ℤ pos (suc n)
      → b ≡ absent
      → Edge busy v gives_way grace a b
  drop : v ≡ none → a ≡ conflicted → b ≡ absent → Edge busy v gives_way grace a b
  yield : v ≡ none → gives_way ≡ true → b ≡ absent → Edge busy v gives_way grace a b
