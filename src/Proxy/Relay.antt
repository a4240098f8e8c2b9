-- ===== src/Proxy/Relay.antt =====
-- service.go: `acceptRelayLoop`, and the connections behind a relay. A `Duration` is in nanoseconds.
pub mod Tests
pub mod Backoff
pub mod Active
use nas_conn_plus.Base.{
  ℕ, zero, suc, ◌+◌, ◌*◌, ltb, ◌==◌, ℤ, ◌≡◌, List, [], ◌∷◌, ◌++◌, Option, none, some, Bool, true,
  false, if◌then◌else◌,
}
use nas_conn_plus.Config.{Config}
use nas_conn_plus.Config.Policy.{is_zero_copy}
use nas_conn_plus.Metrics.{u64}
use nas_conn_plus.Proxy.{ListenerState}
use nas_conn_plus.Proxy.Limit.{run_once}
use nas_conn_plus.Proxy.Http.{count, enter, leave}

-- What a call of `Accept` returns: a connection, or an error, with what the loop asks of it. `stopped`
-- tells whether the channel `stop` is closed at that moment.
pub data Accepted : Type 0 where
  conn : Accepted
  failed : (stopped is_closed timed_out : Bool) → Accepted

abbrev pub millisecond : ℕ
millisecond = 1000000

abbrev pub second : ℕ
second = 1000000000

-- The next `tempDelay`.
unfoldable pub next_delay : ℕ → ℕ
next_delay delay =
    let grown = if delay == 0 then 5 * millisecond else delay * 2 in
    if ltb second grown then second else grown

-- What a round of the loop does: it sleeps, it serves a connection, or it returns.
pub data Round : Type 0 where
  returns serves : Round
  sleeps : ℕ → Round

-- One round, with the `tempDelay` after it.
unfoldable pub relay_round : Accepted → ℕ → Round × ℕ
unfolding next_delay
relay_round conn delay = (serves, 0)
relay_round (failed stopped is_closed timed_out) delay =
    if stopped
    then (returns, delay)
    else if is_closed
    then (returns, delay)
    else if timed_out
    then (sleeps (50 * millisecond), delay)
    else (sleeps (next_delay delay), next_delay delay)

go_on : Round → List Round → List Round
go_on returns rest = returns ∷ []
go_on serves rest = serves ∷ rest
go_on (sleeps t) rest = sleeps t ∷ rest

-- `acceptRelayLoop`: its rounds, for the answers of `Accept` one after the other.
unfoldable pub relay_rounds : List Accepted → ℕ → List Round
unfolding go_on relay_round
relay_rounds [] delay = []
relay_rounds (a ∷ accepts) delay =
    let (round, delay') = relay_round a delay in go_on round (relay_rounds accepts delay')

-- `OnDialError` warns after five seconds of silence at the earliest, and counts what it suppresses; the zero
-- time is `none`.
pub record DialErrors : Type 0 where
  pub last_time : Option ℕ
  pub suppressed : ℕ

unfoldable pub is_due : ℕ → Option ℕ → Bool
is_due now none = true
is_due now (some last) = ltb (last + 5 * second) now

-- The count in the warning, if there is one.
unfoldable pub on_dial_error : ℕ → DialErrors → Option ℕ × DialErrors
unfolding is_due
on_dial_error now d =
    if is_due now d.last_time
    then (some d.suppressed, record { last_time = some now; suppressed = 0 })
    else (none, record d { suppressed = d.suppressed + 1 })

-- A relay and the connections that it has accepted: for each, whether it has been counted out, by the end
-- of its goroutine (zero copy) or by the first `Close` of its `countingConn`.
pub record Relay : Type 0 where
  pub st : ListenerState
  pub conns : List Bool
  pub zero_copy : Bool

unfoldable pub accept_conn : Relay → Relay
accept_conn r = record r { st = enter r.st; conns = r.conns ++ (false ∷ []) }

counted_out : Option (Bool × List Bool) → Relay → Option Relay
counted_out none r = none
counted_out (some (true, bs)) r = some (record r { conns = bs })
counted_out (some (false, bs)) r = some (record r { st = leave r.st; conns = bs })

-- `countingConn.Close` of the connection at the index: `CompareAndSwap` lets the first call only count. The
-- end of a goroutine runs its deferred call once, so it is such a first call.
unfoldable pub close_conn : ℕ → Relay → Option Relay
unfolding counted_out run_once
close_conn n r = counted_out (run_once n r.conns) r

-- `countingConn.Read` and `Write`, with the count that the connection returns.
unfoldable pub read_conn : ℤ → Relay → Relay
unfolding count
read_conn n r = record r { st = record (r.st) { bytes_in = count n r.st.bytes_in } }

unfoldable pub write_conn : ℤ → Relay → Relay
unfolding count
write_conn n r = record r { st = record (r.st) { bytes_out = count n r.st.bytes_out } }

-- What `HandleConn` gets: the connection below the `limitListenerConn`, or a `countingConn` around it.
pub data Handed : Type 0 where
  raw counting : Handed

unfoldable pub handed : Bool → Handed
handed zero_copy = if zero_copy then raw else counting

-- A failed dial.
unfoldable pub dial_failed : Relay → Relay
dial_failed r = record r { st = record (r.st) { error_count = u64 (r.st.error_count + 1) } }

-- The relay of a listener, before its first connection.
unfoldable pub new_relay : Config → ListenerState → Relay
unfolding is_zero_copy
new_relay cfg st = record { st = st; conns = []; zero_copy = is_zero_copy cfg.relay }

-- What the goroutines of a relay may do, in any order; the bytes of a raw connection pass the code by.
pub data Step (r : Relay) : Relay → Type 0 where
  accepts : (q : Relay) → accept_conn r ≡ q → Step r q
  closes : (n : ℕ) (q : Relay) → close_conn n r ≡ some q → Step r q
  reads : (n : ℤ) (q : Relay) → handed r.zero_copy ≡ counting → read_conn n r ≡ q → Step r q
  writes : (n : ℤ) (q : Relay) → handed r.zero_copy ≡ counting → write_conn n r ≡ q → Step r q
  passes : (n : ℤ) (q : Relay) → handed r.zero_copy ≡ raw → r ≡ q → Step r q
  misses : (q : Relay) → dial_failed r ≡ q → Step r q

pub data Steps (r : Relay) : Relay → Type 0 where
  none_yet : (q : Relay) → r ≡ q → Steps r q
  next : (q p : Relay) → Steps r q → Step q p → Steps r p
