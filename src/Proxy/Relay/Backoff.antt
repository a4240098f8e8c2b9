-- ===== src/Proxy/Relay/Backoff.antt =====
-- The rounds of the accept loop of a relay: when they end, and how long they sleep.
use nas_conn_plus.Base.{
  ℕ, zero, suc, ◌*◌, ◌^◌, ◌≤◌, ltb, ◌≡◌, refl, inl, inr, List, [], ◌∷◌, ◌++◌, Bool, true, false,
  if◌then◌else◌, arith, In, ap, ◌∙◌, ◌||◌,
}
use nas_conn_plus.Proxy.Relay.{
  Accepted, conn, failed, millisecond, second, next_delay, Round, returns, serves, sleeps, go_on,
  relay_round, relay_rounds,
}

-- `n` failures of the listener that are neither its end nor a timeout.
abbrev pub failures : ℕ → List Accepted
failures zero = []
failures (suc n) = failed false false false ∷ failures n

-- The sleep after `n` failures that went before: five milliseconds, doubled each time, a second at most.
abbrev pub delay_after : ℕ → ℕ
delay_after n = let d = 5 * millisecond * 2 ^ n in if ltb second d then second else d

-- The sleeps of `n` failures in a row, the first with `k` before it.
abbrev pub sleeps_from : ℕ → ℕ → List Round
sleeps_from k zero = []
sleeps_from k (suc n) = sleeps (delay_after k) ∷ sleeps_from (suc k) n

doubled :
    (d : ℕ)
    → 1 ≤ d
    → next_delay (if ltb second d then second else d)
      ≡ (if ltb second (d * 2) then second else d * 2)
unfolding next_delay
doubled d some_time = ground arith

power_ne_zero : (k : ℕ) → 1 ≤ 2 ^ k
power_ne_zero zero = omega arith
power_ne_zero (suc k) = omega (arith, power_ne_zero k)

grows : (k : ℕ) → 5 * millisecond * 2 ^ k * 2 ≡ 5 * millisecond * 2 ^ suc k
grows k = omega arith

next_delay-after : (k : ℕ) → next_delay (delay_after k) ≡ delay_after (suc k)
next_delay-after k =
    doubled (5 * millisecond * 2 ^ k) (omega (arith, power_ne_zero k))
    ∙ ap (λ d. if ltb second d then second else d) (grows k)

rounds_from : (k n : ℕ) → relay_rounds (failures n) (delay_after k) ≡ sleeps_from (suc k) n
unfolding relay_rounds relay_round go_on
rounds_from k zero = refl
rounds_from k (suc n) =
    rw (next_delay-after k)
      (ap (λ rest. sleeps (delay_after (suc k)) ∷ rest) (rounds_from (suc k) n))

-- Failures in a row make the loop sleep five milliseconds, then twice as long each time, up to a second, and
-- it never returns for them.
pub relay_rounds-failures : (n : ℕ) → relay_rounds (failures n) 0 ≡ sleeps_from 0 n
unfolding relay_rounds relay_round go_on next_delay
relay_rounds-failures zero = refl
relay_rounds-failures (suc n) = ap (λ rest. sleeps (delay_after 0) ∷ rest) (rounds_from 0 n)

-- The loop returns at the latest at the first failure that finds `stop` closed or the listener closed,
-- whatever came before it; nothing that comes after it is accepted.
pub relay_rounds-returns :
    (before after : List Accepted) (stopped is_closed timed_out : Bool) (delay : ℕ)
    → stopped || is_closed ≡ true
    → In returns (relay_rounds (before ++ (failed stopped is_closed timed_out ∷ after)) delay)
      × (relay_rounds (before ++ (failed stopped is_closed timed_out ∷ after)) delay
          ≡ relay_rounds (before ++ (failed stopped is_closed timed_out ∷ [])) delay)
unfolding relay_rounds relay_round go_on
relay_rounds-returns [] after true c t delay e = (inl refl, refl)
relay_rounds-returns [] after false true t delay e = (inl refl, refl)
relay_rounds-returns [] after false false t delay e = ground arith
relay_rounds-returns (conn ∷ before) after s c t delay e =
    let (here, same) = relay_rounds-returns before after s c t 0 e in
    (inr here, ap (λ rest. serves ∷ rest) same)
relay_rounds-returns (failed true c' t' ∷ before) after s c t delay e = (inl refl, refl)
relay_rounds-returns (failed false true t' ∷ before) after s c t delay e = (inl refl, refl)
relay_rounds-returns (failed false false true ∷ before) after s c t delay e =
    let (here, same) = relay_rounds-returns before after s c t delay e in
    (inr here, ap (λ rest. sleeps (50 * millisecond) ∷ rest) same)
relay_rounds-returns (failed false false false ∷ before) after s c t delay e =
    let (here, same) = relay_rounds-returns before after s c t (next_delay delay) e in
    (inr here, ap (λ rest. sleeps (next_delay delay) ∷ rest) same)
