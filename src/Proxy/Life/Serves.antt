-- ===== src/Proxy/Life/Serves.antt =====
-- `Reconcile` serves what the settings and the scan call for, when the port can be bound.
use nas_conn_plus.Base.{
  ℕ, ◌<◌, ℤ, Bool, ◌≡◌, sym, ap, subst, ◌∙◌, inl, inr, Option, none, some, true, false, get, mem,
  distinct, In, arith, int_eq,
}
use nas_conn_plus.Config.{HttpsPort}
use nas_conn_plus.Config.Policy.{is_relay_allowed}
use nas_conn_plus.Config.Load.Spec.{targets}
use nas_conn_plus.Scanner.{ScanResult, Runtime}
use nas_conn_plus.Scanner.Prober.{Machine}
use nas_conn_plus.Proxy.{
  https, relay, Key, key, key_eq, ListenerState, Want, Service, is_our_listener_port,
  is_our_listener,
}
use nas_conn_plus.Proxy.Listen.{Host}
use nas_conn_plus.Proxy.Wants.{pre_pass, rule_want, relay_want}
use nas_conn_plus.Proxy.Wants.Justified.{IsUp, Excluded}
use nas_conn_plus.Proxy.Wants.Complete.{build_wants-rule, build_wants-relay}
use nas_conn_plus.Proxy.Reconcile.{reconcile}
use nas_conn_plus.Proxy.Reconcile.Invariant.{Inv, wants_of, wants_of-WantsKeyed, reconcile-Inv}
use nas_conn_plus.Proxy.Sockets.{is_open, NoLeak, Works, AllWork}
use nas_conn_plus.Proxy.Sockets.Polls.{reconcile-NoLeak}
use nas_conn_plus.Proxy.Sockets.Served.{reconcile-AllWork}
use nas_conn_plus.Proxy.Reconcile.Cases.{Busy}
use nas_conn_plus.Proxy.Life.{
  Slot, live, slot_of, slot, Edge, rest, start, contend, hold, miss, expire, drop, yield,
}
use nas_conn_plus.Proxy.Life.Refines.{reconcile-Edge}

-- The port can be bound by the calls after the one and before the other.
abbrev pub IsFree : Host → Key → ℕ → ℕ → Type 0
IsFree o (kind, port) from to = (n : ℕ) → from < n → n < to → o.bind n kind port ≡ none

-- What the settings and the scan call for: a rule whose backend is up, or the mirror of a port.
pub data Demanded (s : Service) (res : ScanResult) (k : Key) (backend : ℤ) : Type 0 where
  rule :
      (r : HttpsPort)
      → In r s.cfg.https
      → IsUp res r.http
      → k ≡ key https r.https
      → backend ≡ r.http
      → Demanded s res k backend
  mirror :
      (p : ℤ)
      → s.cfg.relay.auto ≡ true
      → mem p res.v4_wild ≡ true
      → ¬ Excluded s p
      → is_relay_allowed (some s.cfg) p ≡ true
      → mem p res.v6_others ≡ false
      → (is_our_listener_port s p ≡ true → is_our_listener s relay p ≡ true)
      → k ≡ key relay p
      → backend ≡ p
      → Demanded s res k backend

-- A listener that the slot holds, if there is one, serves the backend.
abbrev pub HasRoom : ℤ → Slot → Type 0
HasRoom backend a = (st : ListenerState) (n : ℕ) → a ≡ live st n → st.backend ≡ backend

-- The key has a listener of its own kind and port for the backend, whose polls are counted from nothing; its
-- socket is open, and the HTTP server or the accept loop of its kind runs on it.
pub record Served (k : Key) (backend : ℤ) (s : Service) : Type 0 where
  pub st : ListenerState
  pub socket : ℕ
  pub at : slot k s ≡ live st 0
  pub listener : get k s.listeners ≡ some st
  pub key_is : k ≡ key st.kind st.port
  pub backend_is : st.backend ≡ backend
  pub ln : st.ln ≡ some socket
  pub is_up : is_open socket s.events ≡ true
  pub works : Works st socket s.events

abbrev Wanted : Host → ScanResult → Service → Key → ℤ → Type 0
Wanted o res s k backend = (w : Want) × (get k (wants_of o res s) ≡ some w) × (w.backend ≡ backend)

-- The probes change the runtime only.
pre_pass_is :
    (o : Machine) (res : ScanResult) (s : Service)
    → pre_pass o res s ≡ record s { runtime = (pre_pass o res s).runtime }
unfolding pre_pass
pre_pass_is o res s = ground arith

Demanded-Wanted :
    (o : Host) (res : ScanResult) (s : Service) (rt : Runtime) (k : Key) (backend : ℤ)
    → distinct (targets s.cfg.https) ≡ true
    → Demanded s res k backend
    → Wanted o res (record s { runtime = rt }) k backend
unfolding is_our_listener_port is_our_listener rule_want relay_want
Demanded-Wanted o res s rt k backend d (rule r i up at e) =
    let t : Service = record s { runtime = rt } in
    (
      rule_want r,
      ap (λ x. get x (wants_of o res t)) at ∙ build_wants-rule o.machine t res r i d up,
      sym e,
    )
Demanded-Wanted o res s rt k backend d (mirror p on v4 open_port allowed no_v6 free at e) =
    let t : Service = record s { runtime = rt } in
    (
      relay_want p,
      ap (λ x. get x (wants_of o res t)) at
          ∙ build_wants-relay o.machine t res p on v4 open_port allowed no_v6 free,
      sym e,
    )

slot_of-live :
    (x : Option ListenerState) (n : Option ℕ) (st : ListenerState) (m : ℕ)
    → slot_of x n ≡ live st m
    → (x ≡ some st) × (st.conflict ≡ false)
slot_of-live none n st m e = cc
slot_of-live (some y) n st m e = ground arith

-- An edge for a want that can be bound leads to a listener for its backend.
Edge-live :
    (o : Host) (from to : ℕ) (v : Option Want) (w : Want) (gives_way : Bool) (grace : ℤ)
    (a b : Slot)
    → v ≡ some w
    → ((n : ℕ) → from < n → n < to → o.bind n w.kind w.port ≡ none)
    → HasRoom w.backend a
    → Edge (Busy o from to) v gives_way grace a b
    → (st : ListenerState) × (b ≡ live st 0) × (st.backend ≡ w.backend)
Edge-live o from to v w gives_way grace a b e free room (rest f p q) = cc
Edge-live o from to v w gives_way grace a b e free room (start x st f p m q) =
    (st, q, let same : x ≡ w = cc in m.backend ∙ ap (λ (y : Want). y.backend) same)
Edge-live o from to v w gives_way grace a b e free room (contend x f (n, why, l, r, busy) p q) =
    let same : w ≡ x = cc in cc (free n l r, busy, ap (λ (y : Want). o.bind n y.kind y.port) same)
Edge-live o from to v w gives_way grace a b e free room (hold x st n f p q) = (st, q, room st n p)
Edge-live o from to v w gives_way grace a b e free room (miss st n f p g q) = cc
Edge-live o from to v w gives_way grace a b e free room (expire st n f p g q) = cc
Edge-live o from to v w gives_way grace a b e free room (drop f p q) = cc
Edge-live o from to v w gives_way grace a b e free room (yield f p q) = cc

free_want :
    (o : Host) (k : Key) (w : Want) (from to : ℕ)
    → k ≡ key w.kind w.port
    → IsFree o k from to
    → (n : ℕ) → from < n
    → n < to
    → o.bind n w.kind w.port ≡ none
free_want o (kind, port) w from to e free n l r =
    ap (λ (x : Key). o.bind n (x.0) (x.1)) (sym e) ∙ free n l r

live-Served :
    (k : Key) (backend : ℤ) (t : Service) (st : ListenerState)
    → Inv t
    → NoLeak t
    → AllWork t.listeners t.events
    → slot k t ≡ live st 0
    → st.backend ≡ backend
    → Served k backend t
unfolding slot
live-Served k backend t st v leak work at serves =
    let (listener, up) = slot_of-live (get k t.listeners) (get k t.missing) st 0 at in
    elim ((v.entries k).socket st listener) [
      | inl (c, _) ↦ cc
      | inr (c, (n, ln)) ↦ record {
        st = st;
        socket = n;
        at = at;
        listener = listener;
        key_is = (v.entries k).key_is st listener;
        backend_is = serves;
        ln = ln;
        is_up = leak.is_live k n (rw listener ln);
        works = work k st n listener ln;
      }
    ]

-- When the settings name each target once, a poll leaves every key that a rule with a running backend or a
-- port to mirror calls for with a working listener for the backend, not counted as missing, if the calls of the
-- poll can bind its port and no listener for another backend is there before.
pub reconcile-Served :
    (o : Host) (res : ScanResult) (s : Service) (k : Key) (backend : ℤ)
    → Inv s
    → NoLeak s
    → AllWork s.listeners s.events
    → distinct (targets s.cfg.https) ≡ true
    → Demanded s res k backend
    → IsFree o k s.runtime.calls (reconcile o res s).runtime.calls
    → HasRoom backend (slot k s)
    → Served k backend (reconcile o res s)
reconcile-Served o res s k backend v leak work d called free room =
    let t = pre_pass o.machine res s in
    let (w, e, b) =
      subst (λ x. Wanted o res x k backend) (sym (pre_pass_is o.machine res s))
        (Demanded-Wanted o res s t.runtime k backend d called) in
    let (st, at, serves) =
      Edge-live o _ _ _ w _ _ _ _ e (free_want o k w _ _ (wants_of-WantsKeyed o res t k w e) free)
        (subst (λ x. HasRoom x (slot k s)) (sym b) room) (reconcile-Edge o res s k v) in
    live-Served k backend (reconcile o res s) st (reconcile-Inv o res s v)
      (reconcile-NoLeak o res s leak) (reconcile-AllWork o res s leak work) at (serves ∙ b)
