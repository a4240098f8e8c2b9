-- ===== src/Proxy/Sockets/Shutdown.antt =====
-- A shutdown closes every socket.
use nas_conn_plus.Base.{
  ℕ, ◌≡◌, refl, inl, inr, List, [], ◌∷◌, some, false, Map, get, Bool-cases, Option-cases, arith,
}
use nas_conn_plus.Proxy.{Event, Key, key_eq, key_beq, ListenerState, Service}
use nas_conn_plus.Proxy.Listen.{stop_listener, stop_all, shutdown}
use nas_conn_plus.Proxy.Sockets.{is_open, NoLeak}
use nas_conn_plus.Proxy.Sockets.Polls.{stopped-is_open}

stays_closed :
    (n : ℕ) (m : Map Key ListenerState) (es : List Event)
    → is_open n es ≡ false
    → is_open n (stop_all m es) ≡ false
unfolding stop_all
stays_closed n [] es h = h
stays_closed n ((k, st) ∷ m) es h =
    stays_closed n m (stop_listener st es) (ground (arith, stopped-is_open n st es, h))

closed_by :
    (n : ℕ) (k : Key) (st : ListenerState) (m : Map Key ListenerState) (es : List Event)
    → get k m ≡ some st
    → st.ln ≡ some n
    → is_open n (stop_all m es) ≡ false
unfolding stop_all get
closed_by n k st [] es e at = ground arith
closed_by n k st ((j, st') ∷ m) es e at = elim (Bool-cases (key_beq j k)) [
  | inl here ↦
      let same : st' ≡ st = ground (arith, here, e) in
      stays_closed n m (stop_listener st' es) (ground (arith, stopped-is_open n st' es, same, at))
  | inr there ↦ closed_by n k st m (stop_listener st' es) (ground (arith, there, e)) at
]

-- After `Shutdown` no socket is open and no listener is left, if before it the open sockets were those
-- that the entries of the map held.
pub shutdown-closed :
    (s : Service)
    → NoLeak s
    → ((n : ℕ) → is_open n (shutdown s).events ≡ false) × ((shutdown s).listeners ≡ [])
unfolding shutdown
shutdown-closed s v = (
  λ n. elim (Bool-cases (is_open n s.events)) [
    | inr shut ↦ stays_closed n s.listeners s.events shut
    | inl up ↦
        let (k, at) = v.held n up in
        elim (Option-cases (get k s.listeners)) [
          | inl gone ↦ ground (arith, at, gone)
          | inr (st, e) ↦ closed_by n k st s.listeners s.events e (ground (arith, at, e))
        ]
  ],
  refl,
)
