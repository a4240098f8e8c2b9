-- ===== src/Proxy/Life/Edges.antt =====
-- Edges of a poll made of those of its loops.
use nas_conn_plus.Base.{
  ℕ, ◌≤◌, arith, Bool, ℤ, int_eq, ◌≡◌, refl, subst, ◌⊎◌, inl, inr, Option, some, false,
}
use nas_conn_plus.Proxy.{key_eq, ListenerState, Want}
use nas_conn_plus.Proxy.Listen.{Host}
use nas_conn_plus.Proxy.Reconcile.Cases.{Busy}
use nas_conn_plus.Proxy.Life.{
  Slot, absent, conflicted, live, MadeFor, Edge, rest, start, contend, hold, miss, expire, drop,
  yield,
}

-- What is known of a refusal by the end of a loop is known by the end of the poll.
pub Edge-busy :
    (busy busy' : Want → Type 0) (v : Option Want) (gives_way : Bool) (grace : ℤ) (a b : Slot)
    → ((w : Want) → busy w → busy' w)
    → Edge busy v gives_way grace a b
    → Edge busy' v gives_way grace a b
Edge-busy busy busy' v gives_way grace a b h (rest f p q) = rest f p q
Edge-busy busy busy' v gives_way grace a b h (start x st f p m q) = start x st f p m q
Edge-busy busy busy' v gives_way grace a b h (contend x f refused p q) =
    contend x f (h x refused) p q
Edge-busy busy busy' v gives_way grace a b h (hold x st n f p q) = hold x st n f p q
Edge-busy busy busy' v gives_way grace a b h (miss st n f p g q) = miss st n f p g q
Edge-busy busy busy' v gives_way grace a b h (expire st n f p g q) = expire st n f p g q
Edge-busy busy busy' v gives_way grace a b h (drop f p q) = drop f p q
Edge-busy busy busy' v gives_way grace a b h (yield f p q) = yield f p q

pub Busy-within :
    (o : Host) (from from' to to' : ℕ)
    → from' ≤ from
    → to ≤ to'
    → (w : Want) → Busy o from to w
    → Busy o from' to' w
Busy-within o from from' to to' f t w (n, e, p, q, b) = (n, e, omega arith, omega arith, b)

-- A listener that the same poll started was not there before it.
pub Edge-started :
    (busy : Want → Type 0) (w : Want) (v : Option Want) (grace : ℤ) (a b : Slot)
    → v ≡ some w
    → (a ≡ conflicted) ⊎ ((st : ListenerState) × MadeFor w st × (a ≡ live st 0))
    → Edge busy v false grace a b
    → Edge busy v false grace absent b
Edge-started busy w v grace a b e h (rest f p q) = cc
Edge-started busy w v grace a b e h (start x st f p m q) = start x st f (inl refl) m q
Edge-started busy w v grace a b e h (contend x f refused p q) = contend x f refused (inl refl) q
Edge-started busy w v grace a b e (inl c) (hold x st n f p q) = cc
Edge-started busy w v grace a b e (inr (new, m, c)) (hold x st n f p q) =
    let same : new ≡ st = cc in start w st e (inl refl) (subst (MadeFor w) same m) q
Edge-started busy w v grace a b e h (miss st n f p g q) = cc
Edge-started busy w v grace a b e h (expire st n f p g q) = cc
Edge-started busy w v grace a b e h (drop f p q) = cc
Edge-started busy w v grace a b e h (yield f p q) = cc
