-- ===== src/Proxy/Life/Refines.antt =====
-- `Reconcile` moves every key along one edge.
use nas_conn_plus.Base.{
  arith, int_eq, ◌≡◌, sym, ap, subst, ◌∙◌, inl, inr, none, some, true, false, Map, get, keys,
  distinct, Option-cases,
}
use nas_conn_plus.Config.{Config}
use nas_conn_plus.Scanner.{ScanResult}
use nas_conn_plus.Proxy.{Key, key_eq, ListenerState, Want, Service}
use nas_conn_plus.Proxy.Listen.{Host}
use nas_conn_plus.Proxy.Wants.{pre_pass}
use nas_conn_plus.Proxy.Wants.Sound.{build_wants-Justified}
use nas_conn_plus.Proxy.Reconcile.{start_all, maintain_all, reconcile_locked, reconcile}
use nas_conn_plus.Proxy.Reconcile.Frame.{SameAt}
use nas_conn_plus.Proxy.Reconcile.Loops.{
  start_all-SameAt_present, start_all-SameAt_absent, start_all-Started,
}
use nas_conn_plus.Proxy.Reconcile.Rounds.{OneRound, start_all-calls}
use nas_conn_plus.Proxy.Reconcile.Entries.{KeyOk, KeyOk-SameAt, WantsKeyed, start_all-KeyOk}
use nas_conn_plus.Proxy.Reconcile.Invariant.{
  Inv, wants_of, probed, reconcile_locked_at, pre_pass-SameMaps, wants_of-WantsKeyed,
}
use nas_conn_plus.Proxy.Reconcile.Settings.{start_all-cfg}
use nas_conn_plus.Proxy.Reconcile.Cases.{Busy}
use nas_conn_plus.Proxy.Sockets.Calls.{probed-calls}
use nas_conn_plus.Proxy.Life.{Slot, absent, slot_of, slot, yields, Edge, rest}
use nas_conn_plus.Proxy.Life.Edges.{Edge-busy, Busy-within, Edge-started}
use nas_conn_plus.Proxy.Life.Rounds.{slot-SameAt, Started-slot, Justified-stays, maintain_key-Edge}

slot-none : (k : Key) (s : Service) → get k s.listeners ≡ none → slot k s ≡ absent
unfolding slot
slot-none k s e = rw e

OneRound-Edge :
    (o : Host) (res : ScanResult) (wants : Map Key Want) (k : Key) (s t : Service)
    (st : ListenerState)
    → KeyOk k s
    → ((w : Want) → get k wants ≡ some w → yields res k ≡ false)
    → get k s.listeners ≡ some st
    → OneRound o res wants k s t
    → Edge
        (Busy o s.runtime.calls t.runtime.calls)
        (get k wants)
        (yields res k)
        s.cfg.grace_polls
        (slot k s)
        (slot k t)
OneRound-Edge o res wants k s t st ok' stays e r =
    let a = slot-SameAt k s r.mid r.same in
    let b = slot-SameAt k _ t r.round in
    let at =
      maintain_key-Edge o res wants k r.mid st (KeyOk-SameAt k s r.mid ok' r.same) stays
        (r.same.listener ∙ e) in
    rw (← a, b, ← r.same.cfg)
      (Edge-busy _ (Busy o s.runtime.calls t.runtime.calls) _ _ _ _ _
        (Busy-within o _ s.runtime.calls _ t.runtime.calls r.calls.0 r.calls.1) at)

module _ (o : Host) (res : ScanResult) (wants : Map Key Want) (k : Key) (s : Service) where
  abbrev mid : Service
  mid = start_all o wants s

  abbrev end : Service
  end = maintain_all o res wants (keys mid.listeners) mid

  -- An entry that is there after the start goes through one round.
  mid-Edge :
      (st : ListenerState)
      → distinct (keys s.listeners) ≡ true
      → WantsKeyed wants
      → ((w : Want) → get k wants ≡ some w → yields res k ≡ false)
      → KeyOk k s
      → get k mid.listeners ≡ some st
      → Edge
          (Busy o mid.runtime.calls end.runtime.calls)
          (get k wants)
          (yields res k)
          s.cfg.grace_polls
          (slot k mid)
          (slot k end)
  mid-Edge st d keyed stays ok' e = elim (reconcile_locked_at o res wants k s d) [
    | inl (f, _) ↦ cc
    | inr (_, r) ↦
        subst
          (λ c.
            Edge (Busy o mid.runtime.calls end.runtime.calls) (get k wants) (yields res k)
              c.grace_polls (slot k mid) (slot k end))
          (start_all-cfg o wants s)
          (OneRound-Edge o res wants k mid end st (start_all-KeyOk o wants k s keyed ok') stays e r)
  ]

  unwanted-Edge :
      distinct (keys s.listeners) ≡ true
      → get k s.listeners ≡ none
      → get k wants ≡ none
      → slot k end ≡ absent
  unfolding slot
  unwanted-Edge d e v =
      let same = start_all-SameAt_absent o k wants s v in
      elim (reconcile_locked_at o res wants k s d) [
        | inl (f, a) ↦ slot-SameAt k mid end a ∙ ap (λ x. slot_of x (get k mid.missing)) f
        | inr ((st, f), _) ↦ cc (same.listener)
      ]

  -- What is refused after the start is refused during the poll.
  within :
      {a b : Slot}
      → Edge
          (Busy o mid.runtime.calls end.runtime.calls)
          (get k wants)
          (yields res k)
          s.cfg.grace_polls
          a
          b
      → Edge
          (Busy o s.runtime.calls end.runtime.calls)
          (get k wants)
          (yields res k)
          s.cfg.grace_polls
          a
          b
  within = Edge-busy _ _ _ _ _ _ _ (Busy-within o _ _ _ _ (start_all-calls o wants s) (omega arith))

  poll-Edge :
      distinct (keys s.listeners) ≡ true
      → WantsKeyed wants
      → ((w : Want) → get k wants ≡ some w → yields res k ≡ false)
      → KeyOk k s
      → Edge
          (Busy o s.runtime.calls end.runtime.calls)
          (get k wants)
          (yields res k)
          s.cfg.grace_polls
          (slot k s)
          (slot k end)
  poll-Edge d keyed stays ok' = elim (Option-cases (get k s.listeners)) [
    | inr (st, e) ↦
        let same = start_all-SameAt_present o k wants s st e in
        rw (← slot-SameAt k s mid same) (within (mid-Edge st d keyed stays ok' (same.listener ∙ e)))
    | inl e ↦ elim (Option-cases (get k wants)) [
      | inl v ↦ rest v (slot-none k s e) (unwanted-Edge d e v)
      | inr (w, v) ↦
          let st = start_all-Started o k w wants s e v in
          rw (slot-none k s e, stays w v)
            (Edge-started (Busy o s.runtime.calls end.runtime.calls) w (get k wants)
              s.cfg.grace_polls (slot k mid) (slot k end) v (Started-slot k w s mid st)
              (rw (stays w v) at (within (mid-Edge st.st d keyed stays ok' st.listener))))
    ]
  ]

-- A poll moves the slot of every key along one edge, for the want that the poll computes from the
-- scan: in particular a listener leaves its slot only when it is not wanted for `grace_polls` polls or
-- gives way to a foreign IPv6 listener, and a wanted key is left without a listener only when its port
-- could not be bound by a call of that poll.
pub reconcile-Edge :
    (o : Host) (res : ScanResult) (s : Service) (k : Key)
    → Inv s
    → let t = pre_pass o.machine res s in
      Edge
        (Busy o s.runtime.calls (reconcile o res s).runtime.calls)
        (get k (wants_of o res t))
        (yields res k)
        s.cfg.grace_polls
        (slot k s)
        (slot k (reconcile o res s))
unfolding reconcile reconcile_locked
reconcile-Edge o res s k v =
    let t = pre_pass o.machine res s in
    let m = pre_pass-SameMaps o.machine res s in
    let t' = probed o res t in
    let same : SameAt k s t' = record {
      cfg = m.cfg;
      listener = ap (get k) m.listeners;
      misses = ap (get k) m.missing;
    } in
    let end' = reconcile_locked o res t in
    let busy = Busy o s.runtime.calls end'.runtime.calls in
    subst
      (λ (c : Config).
        Edge busy (get k (wants_of o res t)) (yields res k) c.grace_polls (slot k s) (slot k end'))
      m.cfg
      (subst
        (λ (a : Slot).
          Edge busy (get k (wants_of o res t)) (yields res k) t'.cfg.grace_polls a (slot k end'))
        (slot-SameAt k s t' same)
        (Edge-busy _ busy _ _ _ _ _
          (Busy-within o _ _ _ _ (probed-calls o.machine res s) (omega arith))
          (poll-Edge o res (wants_of o res t) k t'
            (subst (λ x. distinct (keys x) ≡ true) (sym m.listeners) v.one_each)
            (wants_of-WantsKeyed o res t)
            (λ w e. Justified-stays t res k w (build_wants-Justified o.machine t res k w e))
            (KeyOk-SameAt k s t' (v.entries k) same))))
