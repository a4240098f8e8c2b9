-- ===== src/Scanner/Flight/Order.antt =====
-- One probe at a time, and nobody waits in vain.
use nas_conn_plus.Base.{
  ℕ, ◌==◌, ==_iff, ◌≡◌, ◌≢◌, refl, sym, ap, ◌∙◌, subst, inl, inr, nat_eq, mem, mem-append, List, [],
  ◌∷◌, ◌++◌, Option, none, some, Bool, true, false, Bool-cases, arith,
}
use nas_conn_plus.Scanner.Flight.{
  Pc, calling, joining, waiting, alone, owning, probed, stored, returned, Shared, State, update,
  join_or_start, waiters, deliver, HasRoom, Move, hit, miss, lock, receive, time_out, give_up,
  probe, store, send, pick, IsStart, Reach, here, next,
}

-- The call has started the flight and has not ended it.
abbrev pub owns : Pc → Bool
owns owning = true
owns (probed v) = true
owns (stored v) = true
owns p = false

-- A flight has one owner, its channels are empty, and a call that waits without an answer is in a flight.
pub record InOrder (m : Shared) (pc : ℕ → Pc) : Type 0 where
  pub flying : (i : ℕ) → owns (pc i) ≡ true → (ws : List ℕ) × (m.flight ≡ some ws)
  pub owned : (ws : List ℕ) → m.flight ≡ some ws → (i : ℕ) × (owns (pc i) ≡ true)
  pub one : (i j : ℕ) → owns (pc i) ≡ true → owns (pc j) ≡ true → i ≡ j
  pub room : HasRoom m
  pub awaited : (i : ℕ) → pc i ≡ waiting → m.chan i ≡ none → mem i (waiters m.flight) ≡ true

update_self {ℓ} : {A : Type ℓ} (f : ℕ → A) (i : ℕ) (a : A) → update f i a i ≡ a
update_self f i a = ground (arith, ==_iff i i)

update_other {ℓ} : {A : Type ℓ} (f : ℕ → A) (i j : ℕ) (a : A) → i ≢ j → update f i a j ≡ f j
update_other f i j a h = ground (arith, ==_iff i j)

owns-update :
    (pc : ℕ → Pc) (i : ℕ) (q : Pc) (j : ℕ)
    → owns q ≡ owns (pc i)
    → owns (update pc i q j) ≡ owns (pc j)
owns-update pc i q j o = elim (Bool-cases (i == j)) [
  | inl same ↦ rw same (o ∙ ap (λ k. owns (pc k)) ((==_iff i j).0 same))
  | inr other ↦ rw other refl
]

-- A step that changes no flight, of a call that owns one after it exactly if before.
same_flight :
    (m m' : Shared) (pc : ℕ → Pc) (i : ℕ) (q : Pc)
    → InOrder m pc
    → m'.flight ≡ m.flight
    → owns q ≡ owns (pc i)
    → q ≢ waiting
    → ((j : ℕ) → m.chan j ≡ none → m'.chan j ≡ none)
    → ((j : ℕ) → i ≢ j → m'.chan j ≡ m.chan j)
    → InOrder m' (update pc i q)
same_flight m m' pc i q v f o w e c = record {
  flying = λ j at. let (ws, at') = v.flying j (sym (owns-update pc i q j o) ∙ at) in (ws, f ∙ at');
  owned = λ ws at. let (k, at') = v.owned ws (sym f ∙ at) in (k, owns-update pc i q k o ∙ at');
  one = λ j k a b. v.one j k (sym (owns-update pc i q j o) ∙ a) (sym (owns-update pc i q k o) ∙ b);
  room = λ j at. e j (v.room j (ap (λ x. mem j (waiters x)) (sym f) ∙ at));
  awaited = λ j at empty. elim (Bool-cases (i == j)) [
    | inl same ↦ absurd (w (ground (arith, at)))
    | inr other ↦
        ap (λ x. mem j (waiters x)) f
        ∙ v.awaited j (ground (arith, at)) (sym (c j (ground (arith, ==_iff i j))) ∙ empty)
  ];
}

nobody_owns :
    (m : Shared) (pc : ℕ → Pc) → InOrder m pc → m.flight ≡ none → (i : ℕ) → owns (pc i) ≡ false
nobody_owns m pc v e i = elim (Bool-cases (owns (pc i))) [
  | inl o ↦ let (ws, f) = v.flying i o in cc
  | inr o ↦ o
]

own_flight :
    (m : Shared) (pc : ℕ → Pc) (i : ℕ)
    → InOrder m pc
    → m.flight ≡ none
    → InOrder (record m { flight = some [] }) (update pc i owning)
unfolding mem
own_flight m pc i v e = record {
  flying = λ j at. ([], refl);
  owned = λ ws at. (i, ap owns (update_self pc i owning));
  one = λ j k a b. only_me j a ∙ sym (only_me k b);
  room = λ j at. cc;
  awaited = λ j at empty. elim (Bool-cases (i == j)) [
    | inl same ↦ ground (arith, at, same)
    | inr other ↦ let h = v.awaited j (ground (arith, at, other)) empty in ground (arith, h, e)
  ];
}
  where
    only_me : (j : ℕ) → owns (update pc i owning j) ≡ true → j ≡ i
    only_me j a = elim (Bool-cases (i == j)) [
      | inl same ↦ sym ((==_iff i j).0 same)
      | inr other ↦ ground (arith, other, a, nobody_owns m pc v e j)
    ]

join_flight :
    (m : Shared) (pc : ℕ → Pc) (i : ℕ) (ws : List ℕ)
    → InOrder m pc
    → m.flight ≡ some ws
    → owns (pc i) ≡ false
    → InOrder
        (record m { flight = some (ws ++ (i ∷ [])); chan = update m.chan i none })
        (update pc i waiting)
unfolding mem
join_flight m pc i ws v e o = record {
  flying = λ j at. (ws ++ (i ∷ []), refl);
  owned = λ us at. let (k, at') = v.owned ws e in (k, owns-update pc i waiting k (sym o) ∙ at');
  one = λ j k a b.
      v.one j k (sym (owns-update pc i waiting j (sym o)) ∙ a)
        (sym (owns-update pc i waiting k (sym o)) ∙ b);
  room = λ j at. elim (Bool-cases (i == j)) [
    | inl same ↦ rw same refl
    | inr other ↦ rw other (v.room j (ground (arith, mem-append j ws (i ∷ []), at, e, other)))
  ];
  awaited = λ j at empty. elim (Bool-cases (i == j)) [
    | inl same ↦ ground (arith, mem-append j ws (i ∷ []), same)
    | inr other ↦
        let h = v.awaited j (ground (arith, at, other)) (ground (arith, empty, other)) in
        ground (arith, mem-append j ws (i ∷ []), h, e)
  ];
}

deliver_flight :
    (m : Shared) (pc : ℕ → Pc) (i : ℕ) (x : Bool)
    → InOrder m pc
    → pc i ≡ stored x
    → InOrder (deliver x m) (update pc i (returned x))
unfolding deliver mem
deliver_flight m pc i x v e = record {
  flying = λ j at. absurd (ground (arith, at, none_left j));
  owned = λ ws at. cc;
  one = λ j k a b. absurd (ground (arith, a, none_left j));
  room = λ j at. cc;
  awaited = λ j at empty. elim (Bool-cases (i == j)) [
    | inl same ↦ ground (arith, at, same)
    | inr other ↦ elim (Bool-cases (mem j (waiters m.flight))) [
      | inl sent ↦ ground (arith, empty, sent)
      | inr skipped ↦
          let h = v.awaited j (ground (arith, at, other)) (ground (arith, empty, skipped)) in
          ground (arith, h, skipped)
    ]
  ];
}
  where
    none_left : (j : ℕ) → owns (update pc i (returned x) j) ≡ false
    none_left j = elim (Bool-cases (i == j)) [
      | inl same ↦ ground (arith, same)
      | inr other ↦ elim (Bool-cases (owns (pc j))) [
        | inl o ↦ let same = v.one i j (ap owns e) o in absurd (ground (arith, other, ==_iff i j))
        | inr o ↦ ground (arith, other, o)
      ]
    ]

join_or_start-InOrder :
    (m : Shared) (pc : ℕ → Pc) (i : ℕ) (f : Option (List ℕ))
    → m.flight ≡ f
    → InOrder m pc
    → owns (pc i) ≡ false
    → InOrder (join_or_start i m).1 (update pc i (join_or_start i m).0)
unfolding join_or_start
join_or_start-InOrder m pc i none e v o = rw e (own_flight m pc i v e)
join_or_start-InOrder m pc i (some ws) e v o = rw e (join_flight m pc i ws v e o)

quiet :
    (m : Shared) (pc : ℕ → Pc) (i : ℕ) (p q : Pc)
    → InOrder m pc
    → pc i ≡ p
    → owns q ≡ owns p
    → q ≢ waiting
    → InOrder m (update pc i q)
quiet m pc i p q v e o w =
    same_flight m m pc i q v refl (o ∙ ap owns (sym e)) w (λ j n. n) (λ j h. refl)

Move-InOrder :
    (m m' : Shared) (pc : ℕ → Pc) (i : ℕ) (q : Pc)
    → InOrder m pc
    → Move m i (pc i) m' q
    → InOrder m' (update pc i q)
Move-InOrder m m' pc i q v (hit x p c f g) =
    rw (f, g) (quiet m pc i calling (returned x) v p refl (λ e. cc))
Move-InOrder m m' pc i q v (miss p f g) =
    rw (f, g) (quiet m pc i calling joining v p refl (λ e. cc))
Move-InOrder m m' pc i q v (lock p f) =
    subst (λ (r : Pc × Shared). InOrder r.1 (update pc i r.0)) (sym f)
      (join_or_start-InOrder m pc i m.flight refl v (ap owns p))
Move-InOrder m m' pc i q v (receive x p c f g) =
    rw (f, g)
      (same_flight m (record m { chan = update m.chan i none }) pc i (returned x) v refl
        (ap owns (sym p)) (λ e. cc) (λ j n. ground arith) (λ j h. update_other m.chan i j none h))
Move-InOrder m m' pc i q v (time_out p f g) =
    rw (f, g) (quiet m pc i waiting alone v p refl (λ e. cc))
Move-InOrder m m' pc i q v (give_up x p f g) =
    rw (f, g) (quiet m pc i alone (returned x) v p refl (λ e. cc))
Move-InOrder m m' pc i q v (probe x p f g) =
    rw (f, g) (quiet m pc i owning (probed x) v p refl (λ e. cc))
Move-InOrder m m' pc i q v (store x p f g) =
    rw (f, g)
      (same_flight m (record m { cache = some x }) pc i (stored x) v refl (ap owns (sym p))
        (λ e. cc) (λ j n. n) (λ j h. refl))
Move-InOrder m m' pc i q v (send x p room f g) = rw (f, g) (deliver_flight m pc i x v p)

start-InOrder : (s : State) → IsStart s → InOrder s.shared s.pc
unfolding mem
start-InOrder s (none_flies, fresh) = record {
  flying = λ i at. absurd (ground (arith, at, fresh i));
  owned = λ ws at. cc;
  one = λ i j a b. absurd (ground (arith, a, fresh i));
  room = λ j at. absurd (ground (arith, at, none_flies));
  awaited = λ i at empty. absurd (ground (arith, at, fresh i));
}

pub Reach-InOrder : {s t : State} → IsStart s → Reach s t → InOrder t.shared t.pc
Reach-InOrder {s} {t} (quiet', fresh) (here e) = rw e (start-InOrder s (quiet', fresh))
Reach-InOrder start (next {t} r (pick i m q move f)) =
    rw f (Move-InOrder t.shared m t.pc i q (Reach-InOrder start r) move)
