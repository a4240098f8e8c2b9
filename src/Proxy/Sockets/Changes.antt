-- ===== src/Proxy/Sockets/Changes.antt =====
-- The changes of the map that keep every listener with a socket served.
use nas_conn_plus.Base.{
  ℕ, ◌≡◌, ◌≢◌, sym, ap, subst, ◌∙◌, inl, inr, List, ◌∷◌, some, false, Map, get, put, delete,
  get-put_self, get-put_other, get-delete_self, get-delete_other, Bool-cases, arith,
}
use nas_conn_plus.Proxy.{
  Kind, Event, Key, key_beq, key_beq_iff, key_eq, ListenerState, Want, Service,
}
use nas_conn_plus.Proxy.Listen.{Host, conflict_state, start_serving, stop_listener}
use nas_conn_plus.Proxy.Reconcile.{adopt, log_serving, warn, remember_conflict}
use nas_conn_plus.Proxy.Reconcile.Cases.{Refused, Bound}
use nas_conn_plus.Proxy.Sockets.{is_served, Works, AllWork, NoLeak}

-- The entry of one key changes, and the sockets of the others stay as they are.
change :
    (k : Key) (m m' : Map Key ListenerState) (es es' : List Event)
    → AllWork m es
    → ((j : Key) → key_beq k j ≡ false → get j m' ≡ get j m)
    → ((j : Key) (st : ListenerState) (n : ℕ)
        → key_beq k j ≡ false
        → get j m ≡ some st
        → st.ln ≡ some n
        → is_served st.kind n es' ≡ is_served st.kind n es)
    → ((st : ListenerState) (n : ℕ) → get k m' ≡ some st → st.ln ≡ some n → Works st n es')
    → AllWork m' es'
change k m m' es es' v others frame own j st n at ln = elim (Bool-cases (key_beq k j)) [
  | inl same ↦ own st n (subst (λ i. get i m' ≡ some st) (sym ((key_beq_iff k j).0 same)) at) ln
  | inr apart ↦
      let before = sym (others j apart) ∙ at in
      let w = v j st n before ln in
      record { server = w.server; served = frame j st n apart before ln ∙ w.served }
]

-- A socket that was opened, and is served at once.
adopted-is_served :
    (q : ℕ) (kind : Kind) (st : ListenerState) (n : ℕ) (es : List Event)
    → st.ln ≡ some n
    → n ≢ q
    → is_served kind q (log_serving st es) ≡ is_served kind q es
unfolding log_serving is_served
adopted-is_served q kind st n es ln apart = ground (arith, ln)

adopted-Works :
    (st : ListenerState) (n q : ℕ) (es : List Event)
    → st.ln ≡ some n
    → st.http_server ≡ false
    → st.ln ≡ some q
    → Works (start_serving st) q (log_serving st es)
unfolding start_serving log_serving is_served
adopted-Works st n q es ln quiet at = record {
  server = ground (arith, quiet);
  served = ground (arith, at);
}

-- The socket of a listener that is stopped is another one.
pub stopped-is_served :
    (kind : Kind) (q : ℕ) (st : ListenerState) (es : List Event)
    → st.ln ≢ some q
    → is_served kind q (stop_listener st es) ≡ is_served kind q es
unfolding stop_listener is_served
stopped-is_served kind q st es apart = ground (arith, apart)

pub adopt-AllWork :
    (event : Key → Event) (k : Key) (w : Want) (s t : Service) (st : ListenerState) (n : ℕ)
    → ((kind : Kind) (q : ℕ) (es : List Event)
        → is_served kind q (event k ∷ es) ≡ is_served kind q es)
    → NoLeak s
    → AllWork s.listeners s.events
    → Bound w s t st n
    → AllWork (adopt event k st t).listeners (adopt event k st t).events
unfolding adopt is_served start_serving
adopt-AllWork event k w s t st n silent l v b =
    change k s.listeners (put k (start_serving st) t.listeners) s.events
      (log_serving st (event k ∷ t.events)) v
      (λ j apart.
        get-put_other k j (start_serving st) t.listeners apart ∙ ap (get j) b.maps.listeners)
      (λ j x q apart at ln.
        let old = l.known q (l.is_live j q (ground (arith, at, ln))) in
        adopted-is_served q x.kind st n (event k ∷ t.events) b.ln (λ e. omega (arith, b.new))
        ∙ silent x.kind q t.events
        ∙ ap (is_served x.kind q) b.events)
      (λ x q at ln.
        let same : start_serving st ≡ x = cc (get-put_self k (start_serving st) t.listeners) in
        subst (λ y. Works y q (log_serving st (event k ∷ t.events))) same
          (adopted-Works st n q (event k ∷ t.events) b.ln b.quiet (ground (arith, same, ln))))

-- An entry without a socket.
pub remember_conflict-AllWork :
    (o : Host) (k : Key) (w : Want) (s : Service)
    → AllWork s.listeners s.events
    → AllWork (remember_conflict o k w s).listeners (remember_conflict o k w s).events
unfolding remember_conflict warn conflict_state is_served
remember_conflict-AllWork o k w s v =
    change k s.listeners _ s.events _ v
      (λ j apart. ground (arith, get-put_other k j (conflict_state w) s.listeners apart))
      (λ j x q apart at ln. ground arith)
      (λ x q at ln. ground (arith, get-put_self k (conflict_state w) s.listeners))

pub Refused-AllWork :
    (o : Host) (w : Want) (s t : Service)
    → AllWork s.listeners s.events
    → Refused o w s t
    → AllWork t.listeners t.events
Refused-AllWork o w s t v f =
    subst (λ m. AllWork m t.events) (sym f.maps.listeners)
      (subst (AllWork s.listeners) (sym f.events) v)

pub forget-AllWork :
    (k : Key) (s : Service) (es : List Event)
    → AllWork s.listeners s.events
    → ((j : Key) (st : ListenerState) (n : ℕ)
        → key_beq k j ≡ false
        → get j s.listeners ≡ some st
        → st.ln ≡ some n
        → is_served st.kind n es ≡ is_served st.kind n s.events)
    → AllWork (delete k s.listeners) es
forget-AllWork k s es v frame =
    change k s.listeners (delete k s.listeners) s.events es v
      (λ j apart. get-delete_other k j s.listeners apart) frame
      (λ x q at ln. cc (get-delete_self k s.listeners))

-- Only the key of an entry holds its socket.
pub other_socket :
    (j k : Key) (st x : ListenerState) (q : ℕ) (s : Service)
    → NoLeak s
    → key_beq k j ≡ false
    → get k s.listeners ≡ some st
    → get j s.listeners ≡ some x
    → x.ln ≡ some q
    → st.ln ≢ some q
other_socket j k st x q s l apart here there ln e =
    let same : k ≡ j = l.one_key k j q (ground (arith, here, e)) (ground (arith, there, ln)) in
    ground (arith, key_beq_iff k j, same)
