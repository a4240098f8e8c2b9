-- ===== src/Proxy/Relay/Tests.antt =====
-- The theorems on a relay, applied.
use nas_conn_plus.Base.{◌≡◌, refl, List, [], ◌∷◌, ◌++◌, some, true, false, In}
use nas_conn_plus.Proxy.Tests.{relay_8080}
use nas_conn_plus.Proxy.Listen.{conflict_state}
use nas_conn_plus.Proxy.Relay.{
  Accepted, conn, failed, returns, relay_rounds, Relay, accept_conn, close_conn, accepts, closes,
  none_yet, next,
}
use nas_conn_plus.Proxy.Relay.Active.{Counted, Steps-Counted}
use nas_conn_plus.Proxy.Relay.Backoff.{relay_rounds-returns}

abbrev before : List Accepted
before = conn ∷ failed false false true ∷ failed false false false ∷ conn ∷ []

relay_rounds-returns_example :
    In returns (relay_rounds (before ++ (failed false true false ∷ (conn ∷ []))) 0)
    × (relay_rounds (before ++ (failed false true false ∷ (conn ∷ []))) 0
        ≡ relay_rounds (before ++ (failed false true false ∷ [])) 0)
relay_rounds-returns_example = relay_rounds-returns before (conn ∷ []) false true false 0 refl

abbrev quiet : Relay
quiet = record { st = conflict_state relay_8080; conns = []; zero_copy = true }

-- A connection comes, and is closed twice.
closed_twice :
    (q : Relay) × (p : Relay) × (close_conn 0 (accept_conn quiet) ≡ some q)
    × (close_conn 0 q ≡ some p)
unfolding close_conn accept_conn
closed_twice = (_, _, refl, refl)

Steps-Counted_example : Counted quiet closed_twice.1
Steps-Counted_example = Steps-Counted quiet closed_twice.1 (
    next closed_twice.0 closed_twice.1
      (next (accept_conn quiet) closed_twice.0
        (next quiet (accept_conn quiet) (none_yet quiet refl) (accepts (accept_conn quiet) refl))
        (closes 0 closed_twice.0 closed_twice.2))
      (closes 0 closed_twice.1 closed_twice.3))
