-- ===== src/Scanner/Flight/Tests.antt =====
-- Two calls: the first starts a flight, the second joins it.
use nas_conn_plus.Base.{ℕ, ◌≡◌, refl, [], none, some, true}
use nas_conn_plus.Scanner.Flight.{
  calling, joining, owning, State, update, join_or_start, HasRoom, miss, lock, pick, Reach, here,
  next,
}
use nas_conn_plus.Scanner.Flight.Order.{owns}
use nas_conn_plus.Scanner.Flight.Progress.{Goes, Reach-Goes}

abbrev start : State
start = record {
  shared = record { cache = none; flight = none; chan = λ i. none };
  pc = λ i. calling;
}

abbrev ready : State
ready = record { shared = start.shared; pc = update start.pc 0 joining }

abbrev flown : State
flown = record {
  shared = record { cache = none; flight = some []; chan = λ i. none };
  pc = update ready.pc 0 owning;
}

flies : Reach start flown
unfolding join_or_start
flies =
    next (next (here refl) (pick 0 start.shared joining (miss refl refl refl) refl))
      (pick 0 flown.shared owning (lock refl refl) refl)

Reach-Goes_example :
    ((i j : ℕ) → owns (flown.pc i) ≡ true → owns (flown.pc j) ≡ true → i ≡ j)
    × HasRoom flown.shared
    × ((i : ℕ) → Goes flown i)
Reach-Goes_example = Reach-Goes (refl, λ i. refl) flies
