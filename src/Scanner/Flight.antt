-- ===== src/Scanner/Flight.antt =====
-- prober.go `ProbeHTTP`, called by many goroutines at once for one port: each section under a lock is one
-- step. A goroutine is a number, and so is the channel that it makes.
pub mod Order
pub mod Progress
pub mod Tests
use nas_conn_plus.Base.{
  ℕ, ◌==◌, ◌≡◌, nat_eq, mem, List, [], ◌∷◌, ◌++◌, Option, none, some, Bool, true, false, All,
  if◌then◌else◌,
}

-- Where a call stands, with its local variables.
pub data Pc : Type 0 where
  calling : Pc  -- before the look at the cache
  joining : Pc  -- before `flightMu.Lock`
  waiting : Pc  -- in the `select`
  alone : Pc  -- after the five seconds
  owning : Pc  -- before its own probe
  probed : (is_http : Bool) → Pc  -- before the answer is stored
  stored : (is_http : Bool) → Pc  -- before the answer is sent
  returned : (is_http : Bool) → Pc

-- What the calls share: the answer in the cache, fresh or not; the channels in `flightWait`, if the port has an
-- entry; and the buffers of the channels, which hold one value each.
pub record Shared : Type 0 where
  pub cache : Option Bool
  pub flight : Option (List ℕ)
  pub chan : ℕ → Option Bool

pub record State : Type 0 where
  pub shared : Shared
  pub open shared use *
  pub pc : ℕ → Pc

abbrev pub update {ℓ} : {A : Type ℓ} → (ℕ → A) → ℕ → A → ℕ → A
update f i a j = if i == j then a else f j

-- The section that finds a flight, or starts one.
unfoldable pub join_or_start : ℕ → Shared → Pc × Shared
join_or_start i m = elim m.flight [
  | none ↦ (owning, record m { flight = some [] })
  | some ws ↦ (waiting, record m { flight = some (ws ++ (i ∷ [])); chan = update m.chan i none })
]

-- The channels that the owner sends to.
abbrev pub waiters : Option (List ℕ) → List ℕ
waiters none = []
waiters (some ws) = ws

-- The sends of the owner, and the `delete`.
unfoldable pub deliver : Bool → Shared → Shared
unfolding mem
deliver is_http m = record m {
  flight = none;
  chan = λ j. if mem j (waiters m.flight) then some is_http else m.chan j;
}

-- The buffers that the owner sends to have room.
abbrev pub HasRoom : Shared → Type 0
HasRoom m = (j : ℕ) → mem j (waiters m.flight) ≡ true → m.chan j ≡ none

-- One step of one call.
pub data Move (m : Shared) (i : ℕ) (p : Pc) (m' : Shared) (q : Pc) : Type 0 where
  hit : (v : Bool) → p ≡ calling → m.cache ≡ some v → m' ≡ m → q ≡ returned v → Move m i p m' q
  miss : p ≡ calling → m' ≡ m → q ≡ joining → Move m i p m' q
  lock : p ≡ joining → (q, m') ≡ join_or_start i m → Move m i p m' q
  receive :
      (v : Bool)
      → p ≡ waiting
      → m.chan i ≡ some v
      → m' ≡ record m { chan = update m.chan i none }
      → q ≡ returned v
      → Move m i p m' q
  time_out : p ≡ waiting → m' ≡ m → q ≡ alone → Move m i p m' q
  give_up : (v : Bool) → p ≡ alone → m' ≡ m → q ≡ returned v → Move m i p m' q
  probe : (v : Bool) → p ≡ owning → m' ≡ m → q ≡ probed v → Move m i p m' q
  store :
      (v : Bool) → p ≡ probed v → m' ≡ record m { cache = some v } → q ≡ stored v → Move m i p m' q
  send : (v : Bool) → p ≡ stored v → HasRoom m → m' ≡ deliver v m → q ≡ returned v → Move m i p m' q

pub data Step (s t : State) : Type 0 where
  pick :
      (i : ℕ) (m : Shared) (q : Pc)
      → Move s.shared i (s.pc i) m q
      → t ≡ record { shared = m; pc = update s.pc i q }
      → Step s t

-- No flight, and every call at its start.
abbrev pub IsStart : State → Type 0
IsStart s = (s.flight ≡ none) × ((i : ℕ) → s.pc i ≡ calling)

pub data Reach (s : State) : State → Type 0 where
  here : {t : State} → t ≡ s → Reach s t
  next : {t u : State} → Reach s t → Step t u → Reach s u
