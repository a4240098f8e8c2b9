-- ===== src/Proxy/Reconcile/Loops.antt =====
-- The two loops of `Reconcile`, seen from one key.
use nas_conn_plus.Base.{
  ℕ, ◌≡◌, refl, sym, ap, subst, ◌∙◌, ◌⊎◌, inl, inr, [], ◌∷◌, none, some, true, false, Map, get, put,
  get-put_self, Bool-cases, arith, if◌then◌else◌,
}
use nas_conn_plus.Proxy.{
  Event, added, Key, key_beq, key_eq, key_beq_iff, ListenerState, Want, Service,
}
use nas_conn_plus.Proxy.Listen.{Host, conflict_state, fresh_state, start_serving}
use nas_conn_plus.Proxy.Reconcile.{adopt, remember_conflict, start_new, start_all}
use nas_conn_plus.Proxy.Reconcile.Cases.{Refused, Bound, start_new_cases}
use nas_conn_plus.Proxy.Reconcile.Frame.{
  SameAt, SameAt-refl, SameAt-trans, warn-SameMaps, start_new-SameAt,
}

-- The entry of `k` stays while it is there.
start_new-SameAt_present :
    (o : Host) (j k : Key) (w : Want) (s : Service) (st : ListenerState)
    → get j s.listeners ≡ some st
    → SameAt j s (start_new o (k, w) s)
start_new-SameAt_present o j k w s st e = elim (Bool-cases (key_beq k j)) [
  | inr other ↦ start_new-SameAt o j k w s other
  | inl same ↦
      let here = subst (λ i. get i s.listeners ≡ some st) (sym ((key_beq_iff k j).0 same)) e in
      start_new_cases (SameAt j s) o k w s (λ _ _. SameAt-refl j s) (λ n. cc) (λ n. cc)
]

pub start_all-SameAt_present :
    (o : Host) (j : Key) (wants : Map Key Want) (s : Service) (st : ListenerState)
    → get j s.listeners ≡ some st
    → SameAt j s (start_all o wants s)
unfolding start_all
start_all-SameAt_present o j [] s st e = SameAt-refl j s
start_all-SameAt_present o j ((k, w) ∷ wants) s st e =
    let first = start_new-SameAt_present o j k w s st e in
    SameAt-trans j s _ _ first
      (start_all-SameAt_present o j wants (start_new o (k, w) s) st (first.listener ∙ e))

-- Nothing is started for a key that is not wanted.
pub start_all-SameAt_absent :
    (o : Host) (j : Key) (wants : Map Key Want) (s : Service)
    → get j wants ≡ none
    → SameAt j s (start_all o wants s)
unfolding start_all get
start_all-SameAt_absent o j [] s e = SameAt-refl j s
start_all-SameAt_absent o j ((k, w) ∷ wants) s e = elim (Bool-cases (key_beq k j)) [
  | inl same ↦ ground arith
  | inr other ↦
      SameAt-trans j s _ _ (start_new-SameAt o j k w s other)
        (start_all-SameAt_absent o j wants (start_new o (k, w) s) (ground arith))
]

-- A listener holds a socket, a conflict holds none.
abbrev pub HasSocket : ListenerState → Type 0
HasSocket st =
    ((st.conflict ≡ true) × (st.ln ≡ none)) ⊎ ((st.conflict ≡ false) × ((n : ℕ) × (st.ln ≡ some n)))

-- What stands under `k` after a try: a new listener or a conflict, made for `w`.
pub record Started (k : Key) (w : Want) (before after : Service) : Type 0 where
  pub st : ListenerState
  pub listener : get k after.listeners ≡ some st
  pub kind : st.kind ≡ w.kind
  pub port : st.port ≡ w.port
  pub backend : st.backend ≡ w.backend
  pub socket : HasSocket st
  pub misses : get k after.missing ≡ (if st.conflict then get k before.missing else some 0)

pub adopt-Started :
    (event : Key → Event) (k : Key) (w : Want) (s t : Service) (st : ListenerState) (n : ℕ)
    → Bound w s t st n
    → Started k w s (adopt event k st t)
unfolding adopt start_serving
adopt-Started event k w s t st n b = record {
  st = start_serving st;
  listener = get-put_self k (start_serving st) t.listeners;
  kind = ground (arith, b.kind);
  port = ground (arith, b.port);
  backend = ground (arith, b.backend);
  socket = inr (ground (arith, b.live), (n, ground (arith, b.ln)));
  misses = ground (arith, get-put_self k 0 t.missing, b.live);
}

remember_conflict-Started :
    (o : Host) (k : Key) (w : Want) (s t : Service)
    → Refused o w s t
    → Started k w s (remember_conflict o k w t)
unfolding remember_conflict conflict_state fresh_state
remember_conflict-Started o k w s t f =
    let t' : Service = record t { listeners = put k (conflict_state w) t.listeners } in
    let m = warn-SameMaps o k t' in
    record {
      st = conflict_state w;
      listener = ap (get k) m.listeners ∙ get-put_self k (conflict_state w) t.listeners;
      kind = refl;
      port = refl;
      backend = refl;
      socket = inl (refl, refl);
      misses = ap (get k) m.missing ∙ ap (get k) f.maps.missing;
    }

start_new-Started :
    (o : Host) (k : Key) (w : Want) (s : Service)
    → get k s.listeners ≡ none
    → Started k w s (start_new o (k, w) s)
start_new-Started o k w s e =
    start_new_cases (Started k w s) o k w s (λ st f. cc)
      (λ _ st t n b. adopt-Started added k w s t st n b)
      (λ _ t f. remember_conflict-Started o k w s t f)

Started-SameAt :
    (k : Key) (w : Want) (s t u : Service) → Started k w s t → SameAt k t u → Started k w s u
Started-SameAt k w s t u d a = record {
  st = d.st;
  listener = a.listener ∙ d.listener;
  kind = d.kind;
  port = d.port;
  backend = d.backend;
  socket = d.socket;
  misses = a.misses ∙ d.misses;
}

SameAt-Started :
    (k : Key) (w : Want) (s t u : Service) → SameAt k s t → Started k w t u → Started k w s u
SameAt-Started k w s t u a d = record {
  st = d.st;
  listener = d.listener;
  kind = d.kind;
  port = d.port;
  backend = d.backend;
  socket = d.socket;
  misses = ground (arith, d.misses, a.misses);
}

-- A wanted key without an entry gets one.
pub start_all-Started :
    (o : Host) (j : Key) (v : Want) (wants : Map Key Want) (s : Service)
    → get j s.listeners ≡ none
    → get j wants ≡ some v
    → Started j v s (start_all o wants s)
unfolding start_all get
start_all-Started o j v [] s e f = cc
start_all-Started o j v ((k, w) ∷ wants) s e f = elim (Bool-cases (key_beq k j)) [
  | inr other ↦
      let first = start_new-SameAt o j k w s other in
      SameAt-Started j v s (start_new o (k, w) s) _ first
        (start_all-Started o j v wants (start_new o (k, w) s) (first.listener ∙ e) (ground arith))
  | inl same ↦
      let i = (key_beq_iff k j).0 same in
      let head = λ (e' : get k s.listeners ≡ none).
        let st = start_new-Started o k w s e' in
        Started-SameAt k w s _ _ st
          (start_all-SameAt_present o k wants (start_new o (k, w) s) st.st st.listener) in
      let v-is : w ≡ v = ground arith in
      subst (λ x. Started j x s (start_all o wants (start_new o (k, w) s))) v-is
        (subst
          (λ x. get x s.listeners ≡ none → Started x w s (start_all o wants (start_new o (k, w) s)))
          i head e)
]
