-- ===== src/Proxy/Limit/Tests.antt =====
-- A listener with room for one connection, which is accepted and closed twice; then a call waits.
use nas_conn_plus.Base.{
  ℕ, ◌≤◌, ◌≡◌, ◌≢◌, refl, List, [], ◌∷◌, none, some, Bool, true, false, codes, if◌then◌else◌, arith,
}
use nas_conn_plus.Proxy.Limit.{
  LimitListener, new_limit_listener, blocked, acquire, release, release_conn, run_once, close,
  accepted, accept_failed, closed_error, inner_error, Steps, none_yet, next, acquires, accepts,
  releases,
}
use nas_conn_plus.Proxy.Limit.Slots.{
  Balanced, new_limit_listener-Balanced, release-ready, close-acquire,
}

abbrev at : ℕ → ℕ → List Bool → LimitListener
at sem accepting conns = record {
  max_conns = 1;
  sem = sem;
  done = false;
  accepting = accepting;
  conns = conns;
}

history : Steps (new_limit_listener 1) (at 1 1 (true ∷ []))
unfolding new_limit_listener acquire accepted release_conn release run_once
history =
    next (at 0 0 (true ∷ [])) _
      (next (at 0 0 (true ∷ [])) _
        (next (at 1 0 (false ∷ [])) _
          (next (at 1 1 []) _ (next (at 0 0 []) _ (none_yet _ refl) (acquires true _ refl))
            (accepts _ (omega arith) refl))
          (releases 0 _ refl))
        (releases 0 _ refl))
      (acquires false _ refl)

new_limit_listener-Balanced_example : Balanced 1 (at 1 1 (true ∷ []))
new_limit_listener-Balanced_example = new_limit_listener-Balanced 1 (at 1 1 (true ∷ [])) history

release-ready_example :
    (run_once 0 (at 1 1 (true ∷ [])).conns ≢ none → release_conn 0 (at 1 1 (true ∷ [])) ≢ none)
    × (1 ≤ (at 1 1 (true ∷ [])).accepting
        → (o : LimitListener) × (accept_failed (codes "reset") (at 1 1 (true ∷ []))
            ≡ some (
              if (at 1 1 (true ∷ [])).done then closed_error else inner_error (codes "reset"),
              o,
            )))
release-ready_example = release-ready 1 0 (codes "reset") (at 1 1 (true ∷ [])) history

close-acquire_example : acquire true (close (at 1 1 [])) ≢ blocked
close-acquire_example =
    close-acquire true (at 1 1 []) (close (at 1 1 [])) (none_yet (close (at 1 1 [])) refl)
