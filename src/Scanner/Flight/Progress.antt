-- ===== src/Scanner/Flight/Progress.antt =====
-- In whatever order the calls are scheduled, each can go on, or waits for one that can.
use nas_conn_plus.Base.{
  ℕ, ◌≡◌, ◌≢◌, ◌⊎◌, refl, ap, inl, inr, nat_eq, mem, some, Bool, true, Option-cases, arith,
}
use nas_conn_plus.Scanner.Flight.{
  Pc, calling, joining, waiting, alone, owning, probed, stored, returned, Shared, State,
  join_or_start, waiters, deliver, HasRoom, Move, miss, lock, give_up, probe, store, send, IsStart,
  Reach,
}
use nas_conn_plus.Scanner.Flight.Order.{owns, InOrder, Reach-InOrder}

abbrev pub CanMove : Shared → ℕ → Pc → Type 0
CanMove m i p = (m' : Shared) × (q : Pc) × Move m i p m' q

-- The call has returned; or it is not waiting and can go on; or its answer is there; or it is in the flight of
-- another call, which can go on.
abbrev pub Goes : State → ℕ → Type 0
Goes t i =
    ((v : Bool) × (t.pc i ≡ returned v))
    ⊎ (((t.pc i ≢ waiting) × CanMove t.shared i (t.pc i))
        ⊎ (((v : Bool) × (t.chan i ≡ some v))
            ⊎ ((j : ℕ) × (owns (t.pc j) ≡ true)
                × (mem i (waiters t.flight) ≡ true)
                × CanMove t.shared j (t.pc j))))

owner-CanMove : (m : Shared) (j : ℕ) (p : Pc) → HasRoom m → owns p ≡ true → CanMove m j p
owner-CanMove m j calling room o = cc
owner-CanMove m j joining room o = cc
owner-CanMove m j waiting room o = cc
owner-CanMove m j alone room o = cc
owner-CanMove m j owning room o = (m, probed true, probe true refl refl refl)
owner-CanMove m j (probed v) room o =
    (record m { cache = some v }, stored v, store v refl refl refl)
owner-CanMove m j (stored v) room o = (deliver v m, returned v, send v refl room refl refl)
owner-CanMove m j (returned v) room o = cc

call-Goes : (t : State) (i : ℕ) (p : Pc) → InOrder t.shared t.pc → t.pc i ≡ p → Goes t i
unfolding mem
call-Goes t i calling v e = inr (inl ((λ w. cc), (t.shared, joining, miss e refl refl)))
call-Goes t i joining v e =
    let (q, m) = join_or_start i t.shared in inr (inl ((λ w. cc), (m, q, lock e refl)))
call-Goes t i alone v e = inr (inl ((λ w. cc), (t.shared, returned true, give_up true e refl refl)))
call-Goes t i owning v e =
    inr (inl ((λ w. cc), owner-CanMove t.shared i (t.pc i) v.room (ap owns e)))
call-Goes t i (probed x) v e =
    inr (inl ((λ w. cc), owner-CanMove t.shared i (t.pc i) v.room (ap owns e)))
call-Goes t i (stored x) v e =
    inr (inl ((λ w. cc), owner-CanMove t.shared i (t.pc i) v.room (ap owns e)))
call-Goes t i (returned x) v e = inl (x, e)
call-Goes t i waiting v e = elim (Option-cases (t.chan i)) [
  | inr (x, there) ↦ inr (inr (inl (x, there)))
  | inl empty ↦
      let here = v.awaited i e empty in
      (elim (Option-cases t.flight) [
        | inl none_flies ↦ absurd (ground (arith, here, none_flies))
        | inr (ws, f) ↦
            let (j, o) = v.owned ws f in
            inr (inr (inr (j, o, here, owner-CanMove t.shared j (t.pc j) v.room o)))
      ])
]

-- For any number of calls of `ProbeHTTP` on one port, scheduled in any order: at most one of them has a
-- flight, its sends do not block, and each call has returned, can go on without waiting, has its answer in
-- its channel, or is among the waiters of a call that can go on.
pub Reach-Goes :
    {s t : State}
    → IsStart s
    → Reach s t
    → ((i j : ℕ) → owns (t.pc i) ≡ true → owns (t.pc j) ≡ true → i ≡ j)
      × HasRoom t.shared
      × ((i : ℕ) → Goes t i)
Reach-Goes {t} start r =
    let v = Reach-InOrder start r in (v.one, v.room, λ i. call-Goes t i (t.pc i) v refl)
