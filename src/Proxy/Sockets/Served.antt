-- ===== src/Proxy/Sockets/Served.antt =====
-- Every listener that a poll leaves with a socket is served.
use nas_conn_plus.Base.{ℕ, ◌≡◌, refl, sym, subst, ◌∙◌, List, [], ◌∷◌, Map, keys, arith}
use nas_conn_plus.Scanner.{ScanResult}
use nas_conn_plus.Scanner.Prober.{Machine}
use nas_conn_plus.Proxy.{Kind, Event, added, resolved, stopped, yielded, Key, key_eq, Want, Service}
use nas_conn_plus.Proxy.Listen.{Host, stop_listener}
use nas_conn_plus.Proxy.Wants.{pre_pass, build_wants}
use nas_conn_plus.Proxy.Reconcile.{
  forget, stop, start_new, start_all, maintain_key, maintain_all, reconcile_locked, reconcile,
}
use nas_conn_plus.Proxy.Reconcile.Cases.{start_new_cases, maintain_key_cases}
use nas_conn_plus.Proxy.Reconcile.Invariant.{probed, pre_pass-SameMaps}
use nas_conn_plus.Proxy.Sockets.{is_served, AllWork, NoLeak}
use nas_conn_plus.Proxy.Sockets.Changes.{
  adopt-AllWork, remember_conflict-AllWork, Refused-AllWork, forget-AllWork, other_socket,
  stopped-is_served,
}
use nas_conn_plus.Proxy.Sockets.Polls.{start_new-NoLeak, maintain_key-NoLeak, probed-NoLeak}

record Good (s : Service) : Type 0 where
  no_leak : NoLeak s
  work : AllWork s.listeners s.events

start_new-Good :
    (o : Host) (k : Key) (w : Want) (s : Service) → Good s → Good (start_new o (k, w) s)
unfolding is_served
start_new-Good o k w s v = record {
  no_leak = start_new-NoLeak o k w s v.no_leak;
  work =
      start_new_cases (λ t. AllWork t.listeners t.events) o k w s (λ st e. v.work)
        (λ e st t n b.
          adopt-AllWork (λ j. added j) k w s t st n (λ kind q es. refl) v.no_leak v.work b)
        (λ e t f. remember_conflict-AllWork o k w t (Refused-AllWork o w s t v.work f));
}

maintain_key-Good :
    (o : Host) (res : ScanResult) (wants : Map Key Want) (k : Key) (s : Service)
    → Good s
    → Good (maintain_key o res wants k s)
unfolding is_served forget stop
maintain_key-Good o res wants k s v = record {
  no_leak = maintain_key-NoLeak o res wants k s v.no_leak;
  work =
      maintain_key_cases (λ t. AllWork t.listeners t.events) o res wants k s (λ e. v.work)
        λ st e.
          let gone =
            λ (x : Event)
                (silent : (kind : Kind) (q : ℕ)
                  → is_served kind q (x ∷ s.events) ≡ is_served kind q s.events).
              forget-AllWork k s (stop_listener st (x ∷ s.events)) v.work (λ j y q apart at ln.
                stopped-is_served y.kind q st (x ∷ s.events)
                  (other_socket j k st y q s v.no_leak apart e at ln)
                ∙ silent y.kind q) in
          record {
            yield = λ out. gone (yielded k) (λ kind q. refl);
            drop = λ n c. forget-AllWork k s s.events v.work (λ j y q apart at ln. refl);
            expire = λ n c x. gone (stopped k) (λ kind q. refl);
            wait = λ n c x. v.work;
            resolve = λ w wanted' c new t n b.
                adopt-AllWork (λ j. resolved j) k w s t new n (λ kind q es. refl) v.no_leak v.work
                  b;
            retry = λ w wanted' c t f. Refused-AllWork o w s t v.work f;
            keep = λ w wanted' c. v.work;
          };
}

start_all-Good :
    (o : Host) (wants : Map Key Want) (s : Service) → Good s → Good (start_all o wants s)
unfolding start_all
start_all-Good o [] s v = v
start_all-Good o ((k, w) ∷ wants) s v = start_all-Good o wants _ (start_new-Good o k w s v)

maintain_all-Good :
    (o : Host) (res : ScanResult) (wants : Map Key Want) (ks : List Key) (s : Service)
    → Good s
    → Good (maintain_all o res wants ks s)
unfolding maintain_all
maintain_all-Good o res wants [] s v = v
maintain_all-Good o res wants (k ∷ ks) s v =
    maintain_all-Good o res wants ks _ (maintain_key-Good o res wants k s v)

pre_pass-events :
    (o : Machine) (res : ScanResult) (s : Service) → (pre_pass o res s).events ≡ s.events
unfolding pre_pass
pre_pass-events o res s = ground arith

-- After a poll every listener with a socket is served, if it was so before.
pub reconcile-AllWork :
    (o : Host) (res : ScanResult) (s : Service)
    → NoLeak s
    → AllWork s.listeners s.events
    → AllWork (reconcile o res s).listeners (reconcile o res s).events
unfolding reconcile reconcile_locked
reconcile-AllWork o res s l v =
    let t = pre_pass o.machine res s in
    let wants = (build_wants o.machine t res).0 in
    let m = pre_pass-SameMaps o.machine res s in
    let work =
      subst (λ x. AllWork x t.events) (sym m.listeners)
        (subst (AllWork s.listeners) (sym (pre_pass-events o.machine res s)) v) in
    let good : Good (probed o res t) = record { no_leak = probed-NoLeak o res s l; work = work } in
    let mid = start_all o wants (probed o res t) in
    (maintain_all-Good o res wants (keys mid.listeners) mid
      (start_all-Good o wants (probed o res t) good)).work
