-- ===== src/Proxy/Limit/Slots.antt =====
-- The slots of a `limitListener` in every order of its calls.
use nas_conn_plus.Base.{
  ℕ, zero, suc, ◌+◌, ◌-◌, ◌≢◌, ◌≤◌, ◌<◌, ◌≡◌, refl, ap, subst, ◌∙◌, inl, inr, List, [], ◌∷◌, ◌++◌,
  none, some, Bool, true, false, Str, if◌then◌else◌, arith, Option-cases,
}
use nas_conn_plus.Proxy.Limit.{
  LimitListener, new_limit_listener, blocked, got, acquire, take_one, release, close, AcceptError,
  accept_failed, accepted, run_once, release_conn, Step, acquires, fails, accepts, releases, closes,
  Steps, none_yet, next, closed_error, inner_error,
}

-- The connections that hold a slot.
pub held : List Bool → ℕ
held [] = 0
held (true ∷ bs) = held bs
held (false ∷ bs) = suc (held bs)

held-snoc : (bs : List Bool) → held (bs ++ (false ∷ [])) ≡ suc (held bs)
unfolding held
held-snoc [] = refl
held-snoc (true ∷ bs) = held-snoc bs
held-snoc (false ∷ bs) = ap suc (held-snoc bs)

held-run_once :
    (n : ℕ) (bs bs' : List Bool) (before : Bool)
    → run_once n bs ≡ some (before, bs')
    → held bs ≡ (if before then held bs' else suc (held bs'))
unfolding held run_once
held-run_once n [] bs' before e = ground arith
held-run_once zero (true ∷ bs) bs' before e = ground arith
held-run_once zero (false ∷ bs) bs' before e = ground arith
held-run_once (suc n) (b ∷ bs) bs' before e = elim (Option-cases (run_once n bs)) [
  | inl none_there ↦ ground arith
  | inr ((was, cs), at) ↦ ground (arith, held-run_once n bs cs was at)
]

-- A slot is taken for each call of `Accept` in the inner listener and each connection not yet closed,
-- within the limit.
pub record Balanced (n : ℕ) (l : LimitListener) : Type 0 where
  pub limit : l.max_conns ≡ n
  pub slots : l.sem ≡ l.accepting + held l.conns
  pub bound : l.sem ≤ n

acquire-Balanced :
    (n : ℕ) (p : Bool) (l m : LimitListener) → Balanced n l → acquire p l ≡ got m → Balanced n m
unfolding acquire
acquire-Balanced n p l m v e =
    let (taken, free) : (record l { sem = suc l.sem; accepting = suc l.accepting } ≡ m)
        × (l.sem < l.max_conns) =
      ground (arith) in
    subst (Balanced n) taken (record {
      limit = v.limit;
      slots = omega (arith, v.slots);
      bound = omega (arith, free, v.limit);
    })

release-suc : (l : LimitListener) (q : ℕ) → l.sem ≡ suc q → release l ≡ some (record l { sem = q })
unfolding release take_one
release-suc l q e = rw e refl

conn-Balanced :
    (n i : ℕ) (l m : LimitListener) → Balanced n l → release_conn i l ≡ some m → Balanced n m
unfolding release_conn
conn-Balanced n i l m v e = elim (Option-cases (run_once i l.conns)) [
  | inl absent ↦ ground (arith, absent)
  | inr ((true, bs), at) ↦
      let same : record l { conns = bs } ≡ m = ground (arith, at) in
      subst (Balanced n) same (record {
        limit = v.limit;
        slots = v.slots ∙ ap (λ x. l.accepting + x) (held-run_once i l.conns bs true at);
        bound = v.bound;
      })
  | inr ((false, bs), at) ↦
      let q = l.accepting + held bs in
      let full : l.sem ≡ suc q = ground (arith, v.slots, held-run_once i l.conns bs false at) in
      let same : record l { conns = bs; sem = q } ≡ m =
        ground (arith, at, release-suc (record l { conns = bs }) q full) in
      subst (Balanced n) same
        (record { limit = v.limit; slots = refl; bound = omega (arith, v.bound, full) })
]

failed-Balanced :
    (n : ℕ) (err : Str) (l m : LimitListener) (answer : AcceptError)
    → Balanced n l
    → 1 ≤ l.accepting
    → accept_failed err l ≡ some (answer, m)
    → Balanced n m
unfolding accept_failed
failed-Balanced n err l m answer v some_wait e =
    let q = l.accepting - 1 + held l.conns in
    let full : l.sem ≡ suc q = omega (arith, v.slots, some_wait) in
    let same : record l { sem = q; accepting = l.accepting - 1 } ≡ m =
      ground (arith, release-suc l q full) in
    subst (Balanced n) same
      (record { limit = v.limit; slots = refl; bound = omega (arith, v.bound, full) })

accepted-Balanced :
    (n : ℕ) (l : LimitListener) → Balanced n l → 1 ≤ l.accepting → Balanced n (accepted l)
unfolding accepted
accepted-Balanced n l v some_wait = record {
  limit = v.limit;
  slots = ground (arith, v.slots, held-snoc l.conns);
  bound = v.bound;
}

Step-Balanced : (n : ℕ) (l m : LimitListener) → Step l m → Balanced n l → Balanced n m
unfolding close
Step-Balanced n l o (acquires p m e) v = acquire-Balanced n p l m v e
Step-Balanced n l o (fails err answer m w e) v = failed-Balanced n err l m answer v w e
Step-Balanced n l o (accepts m w e) v = subst (Balanced n) e (accepted-Balanced n l v w)
Step-Balanced n l o (releases i m e) v = conn-Balanced n i l m v e
Step-Balanced n l o (closes m e) v =
    subst (Balanced n) e (record { limit = v.limit; slots = v.slots; bound = v.bound })

fresh-Balanced : (n : ℕ) → Balanced n (new_limit_listener n)
unfolding new_limit_listener held
fresh-Balanced n = record { limit = refl; slots = refl; bound = omega arith }

Steps-Balanced : (n : ℕ) (l m : LimitListener) → Steps l m → Balanced n l → Balanced n m
Steps-Balanced n l o (none_yet m e) v = subst (Balanced n) e v
Steps-Balanced n l q (next m o ss s) v = Step-Balanced n m o s (Steps-Balanced n l m ss v)

-- In whatever order a new listener's calls come, the slots in use are one for each call of `Accept` in
-- the inner listener and one for each accepted connection that has not given its slot back, and they
-- stay within the limit.
pub new_limit_listener-Balanced :
    (n : ℕ) (m : LimitListener) → Steps (new_limit_listener n) m → Balanced n m
new_limit_listener-Balanced n m ss = Steps-Balanced n (new_limit_listener n) m ss (fresh-Balanced n)

-- In whatever order a new listener's calls come, giving a slot back never blocks: neither for an
-- accepted connection, which may be closed and released any number of times, nor for an `Accept` whose
-- inner listener fails, which answers with the closed error exactly after `Close`.
pub release-ready :
    (n i : ℕ) (e : Str) (m : LimitListener)
    → Steps (new_limit_listener n) m
    → (run_once i m.conns ≢ none → release_conn i m ≢ none)
      × (1 ≤ m.accepting
          → (o : LimitListener) × (accept_failed e m
              ≡ some (if m.done then closed_error else inner_error e, o)))
unfolding release_conn accept_failed
release-ready n i e m ss =
    let v = new_limit_listener-Balanced n m ss in
    (
      λ there none_left. elim (Option-cases (run_once i m.conns)) [
        | inl absent ↦ there absent
        | inr ((true, bs), at) ↦ ground (arith, at)
        | inr ((false, bs), at) ↦
            let q = m.accepting + held bs in
            ground (
              arith,
              at,
              release-suc (record m { conns = bs }) q
                  (ground (arith, v.slots, held-run_once i m.conns bs false at)),
            )
      ],
      λ some_wait.
          let q = m.accepting - 1 + held m.conns in
          (
            record m { sem = q; accepting = m.accepting - 1 },
            rw (release-suc m q (omega (arith, v.slots, some_wait)), accept_failed) refl,
          ),
    )

Step-done : (l m : LimitListener) → Step l m → l.done ≡ true → m.done ≡ true
unfolding acquire accept_failed accepted release_conn release close
Step-done l o (acquires p m e) d = ground arith
Step-done l o (fails err answer m w e) d = ground arith
Step-done l o (accepts m w e) d = ground arith
Step-done l o (releases i m e) d = ground arith
Step-done l o (closes m e) d = ground arith

Steps-done : (l m : LimitListener) → Steps l m → l.done ≡ true → m.done ≡ true
Steps-done l o (none_yet m e) d = cc
Steps-done l q (next m o ss s) d = Step-done m o s (Steps-done l m ss d)

-- After `Close`, whatever is called next, no `Accept` waits for a slot: it gets one or is refused.
pub close-acquire : (p : Bool) (l m : LimitListener) → Steps (close l) m → acquire p m ≢ blocked
unfolding acquire close
close-acquire p l m ss = ground (arith, Steps-done (close l) m ss refl)
