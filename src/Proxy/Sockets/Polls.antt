-- ===== src/Proxy/Sockets/Polls.antt =====
-- Polls and shutdowns lose no socket.
use nas_conn_plus.Base.{
  ℕ, suc, ◌≡◌, refl, sym, ap, subst, ◌∙◌, inl, inr, List, [], ◌∷◌, none, some, false, Map, get, put,
  delete, keys, ◌==◌, if◌then◌else◌, Bool-cases, arith,
}
use nas_conn_plus.Scanner.{ScanResult}
use nas_conn_plus.Scanner.Prober.{clean_probe_cache, Machine, probe_ports}
use nas_conn_plus.Proxy.{
  Event, added, resolved, conflict_warned, Key, key_eq, ListenerState, Want, Service,
}
use nas_conn_plus.Proxy.Listen.{Host, conflict_state, start_serving, stop_listener}
use nas_conn_plus.Proxy.Wants.{https_auto_on, candidates, pre_pass, probe_all, build_wants}
use nas_conn_plus.Proxy.Reconcile.{
  adopt, log_serving, warn, should_warn, remember_conflict, forget, stop, start_new, start_all,
  maintain_key, maintain_all, reconcile_locked, reconcile,
}
use nas_conn_plus.Proxy.Reconcile.Cases.{Refused, Bound, start_new_cases, maintain_key_cases}
use nas_conn_plus.Proxy.Sockets.{is_open, ln_at, Tracked, NoLeak}
use nas_conn_plus.Proxy.Reconcile.Invariant.{probed}
use nas_conn_plus.Proxy.Sockets.Track.{unchanged, blank, install, vacate}
use nas_conn_plus.Proxy.Sockets.Calls.{probe_ports-calls, build_wants-calls}

serving-is_open :
    (q : ℕ) (st : ListenerState) (es : List Event) → is_open q (log_serving st es) ≡ is_open q es
unfolding log_serving is_open
serving-is_open q st es = ground arith

adopt-NoLeak :
    (event : Key → Event) (k : Key) (w : Want) (s t : Service) (st : ListenerState) (n : ℕ)
    → ((q : ℕ) (es : List Event) → is_open q (event k ∷ es) ≡ is_open q es)
    → NoLeak s
    → ln_at k s.listeners ≡ none
    → Bound w s t st n
    → NoLeak (adopt event k st t)
unfolding adopt start_serving is_open
adopt-NoLeak event k w s t st n silent v free b =
    subst
      (λ m.
        Tracked (put k (start_serving st) m) (log_serving st (event k ∷ t.events)) t.runtime.calls)
      (sym b.maps.listeners)
      (install s.listeners s.events (log_serving st (event k ∷ t.events)) s.runtime.calls
        t.runtime.calls v (omega (arith, b.new, b.calls)) k (start_serving st) n
        (λ q.
          serving-is_open q st (event k ∷ t.events) ∙ silent q t.events ∙ ap (is_open q) b.events)
        free (ground (arith, b.ln)) (ground (arith, b.live)) b.new (omega (arith, b.calls)))

Refused-NoLeak : (o : Host) (w : Want) (s t : Service) → NoLeak s → Refused o w s t → NoLeak t
Refused-NoLeak o w s t v f =
    subst (λ m. Tracked m t.events t.runtime.calls) (sym f.maps.listeners)
      (unchanged s.listeners s.events t.events s.runtime.calls t.runtime.calls v
        (omega (arith, f.calls)) (λ q. ap (is_open q) f.events))

remember_conflict-NoLeak :
    (o : Host) (k : Key) (w : Want) (s : Service)
    → NoLeak s
    → ln_at k s.listeners ≡ none
    → NoLeak (remember_conflict o k w s)
unfolding remember_conflict warn conflict_state is_open
remember_conflict-NoLeak o k w s v free =
    elim (Bool-cases (should_warn (o.now s.runtime.calls) (get k s.warned_conflict))) [
      | inl due ↦
          rw (due, remember_conflict, warn)
            (blank s.listeners s.events (conflict_warned k ∷ s.events) s.runtime.calls
              (suc s.runtime.calls) v (omega arith) k (conflict_state w) (λ q. refl) free refl)
      | inr early ↦
          rw (early, remember_conflict, warn)
            (blank s.listeners s.events s.events s.runtime.calls (suc s.runtime.calls) v
              (omega arith) k (conflict_state w) (λ q. refl) free refl)
    ]

-- The socket of the listener is closed, and no other one.
pub stopped-is_open :
    (q : ℕ) (st : ListenerState) (es : List Event)
    → is_open q (stop_listener st es)
      ≡ (elim st.ln [ none ↦ is_open q es | some n ↦ if n == q then false else is_open q es ])
unfolding stop_listener is_open
stopped-is_open q st es = ground arith

forget_stopped-NoLeak :
    (k : Key) (st : ListenerState) (s t : Service)
    → NoLeak s
    → get k s.listeners ≡ some st
    → t.listeners ≡ s.listeners
    → ((q : ℕ) → is_open q t.events ≡ is_open q s.events)
    → t.runtime.calls ≡ s.runtime.calls
    → NoLeak (forget k (stop st t))
unfolding forget stop
forget_stopped-NoLeak k st s t v e same silent calls =
    subst (λ m. Tracked (delete k m) (stop_listener st t.events) t.runtime.calls) (sym same)
      (vacate s.listeners s.events (stop_listener st t.events) s.runtime.calls t.runtime.calls v
        (omega (arith, calls)) k
        (λ q n at. ground (arith, stopped-is_open q st t.events, silent q, e))
        (λ free q. ground (arith, stopped-is_open q st t.events, silent q, e)))

pub start_new-NoLeak :
    (o : Host) (k : Key) (w : Want) (s : Service) → NoLeak s → NoLeak (start_new o (k, w) s)
unfolding is_open
start_new-NoLeak o k w s v =
    start_new_cases NoLeak o k w s (λ st e. v)
      (λ e st t n b.
        adopt-NoLeak (λ j. added j) k w s t st n (λ q es. refl) v (ground (arith, e)) b)
      (λ e t f.
        remember_conflict-NoLeak o k w t (Refused-NoLeak o w s t v f)
          (ground (arith, f.maps.listeners, e)))

pub maintain_key-NoLeak :
    (o : Host) (res : ScanResult) (wants : Map Key Want) (k : Key) (s : Service)
    → NoLeak s
    → NoLeak (maintain_key o res wants k s)
unfolding is_open forget
maintain_key-NoLeak o res wants k s v =
    maintain_key_cases NoLeak o res wants k s (λ e. v)
      λ st e. record {
        yield = λ out. forget_stopped-NoLeak k st s _ v e refl (λ q. refl) refl;
        drop = λ gone c.
            vacate s.listeners s.events s.events s.runtime.calls s.runtime.calls v (omega arith) k
              (λ q n at. ground (arith, e, v.quiet k st e c)) (λ free q. refl);
        expire = λ gone c x. forget_stopped-NoLeak k st s _ v e refl (λ q. refl) refl;
        wait = λ gone c x. v;
        resolve = λ w wanted' c new t n b.
            adopt-NoLeak (λ j. resolved j) k w s t new n (λ q es. refl) v
              (ground (arith, e, v.quiet k st e c)) b;
        retry = λ w wanted' c t f. Refused-NoLeak o w s t v f;
        keep = λ w wanted' c. v;
      }

start_all-NoLeak :
    (o : Host) (wants : Map Key Want) (s : Service) → NoLeak s → NoLeak (start_all o wants s)
unfolding start_all
start_all-NoLeak o [] s v = v
start_all-NoLeak o ((k, w) ∷ wants) s v = start_all-NoLeak o wants _ (start_new-NoLeak o k w s v)

maintain_all-NoLeak :
    (o : Host) (res : ScanResult) (wants : Map Key Want) (ks : List Key) (s : Service)
    → NoLeak s
    → NoLeak (maintain_all o res wants ks s)
unfolding maintain_all
maintain_all-NoLeak o res wants [] s v = v
maintain_all-NoLeak o res wants (k ∷ ks) s v =
    maintain_all-NoLeak o res wants ks _ (maintain_key-NoLeak o res wants k s v)

pre_pass-NoLeak :
    (o : Machine) (res : ScanResult) (s : Service) → NoLeak s → NoLeak (pre_pass o res s)
unfolding pre_pass probe_all
pre_pass-NoLeak o res s v = elim (Bool-cases (https_auto_on s.cfg)) [
  | inr off ↦ rw (off, pre_pass) v
  | inl on ↦
      let ports = candidates s res in
      let cleaned = record (s.runtime) {
        probe_cache = clean_probe_cache ports s.runtime.probe_cache;
      } in
      rw (on, pre_pass)
        (unchanged s.listeners s.events s.events s.runtime.calls
          (probe_ports o ports cleaned).1.calls v (probe_ports-calls o ports cleaned) (λ q. refl))
]

-- The service before the loops of a poll.
pub probed-NoLeak :
    (o : Host) (res : ScanResult) (s : Service)
    → NoLeak s
    → NoLeak (probed o res (pre_pass o.machine res s))
probed-NoLeak o res s v =
    let t = pre_pass o.machine res s in
    let rt = (build_wants o.machine t res).1 in
    unchanged t.listeners t.events t.events t.runtime.calls rt.calls
      (pre_pass-NoLeak o.machine res s v) (build_wants-calls o.machine t res) (λ q. refl)

-- Polls lose no socket: if the open sockets are those that the entries of the map hold, each held by one
-- key and none by a conflict, then so they are after every poll.
pub reconcile-NoLeak :
    (o : Host) (res : ScanResult) (s : Service) → NoLeak s → NoLeak (reconcile o res s)
unfolding reconcile reconcile_locked
reconcile-NoLeak o res s v =
    let t = pre_pass o.machine res s in
    let (wants, rt) = build_wants o.machine t res in
    let started = start_all o wants (record t { runtime = rt }) in
    maintain_all-NoLeak o res wants (keys started.listeners) started
      (start_all-NoLeak o wants (record t { runtime = rt }) (probed-NoLeak o res s v))
