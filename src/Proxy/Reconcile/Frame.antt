-- ===== src/Proxy/Reconcile/Frame.antt =====
-- Each round of the two loops of `Reconcile` touches the entries of its own key.
use nas_conn_plus.Base.{
  ℕ, ◌≡◌, refl, ap, ◌∙◌, false, Map, get, put, get-put_other, get-delete_other, arith,
}
use nas_conn_plus.Scanner.{ScanResult}
use nas_conn_plus.Proxy.{
  Event, added, resolved, stopped, yielded, Key, key_beq, key_eq, ListenerState, Want, Service,
}
use nas_conn_plus.Proxy.Listen.{Host, log, conflict_state, start_serving}
use nas_conn_plus.Proxy.Reconcile.{
  adopt, remember_conflict, warn, start_new, forget, stop, maintain_key,
}
use nas_conn_plus.Proxy.Reconcile.Cases.{SameMaps, start_new_cases, maintain_key_cases, counted}

-- The entries of the key `j`, and the settings.
pub record SameAt (j : Key) (s t : Service) : Type 0 where
  pub cfg : t.cfg ≡ s.cfg
  pub listener : get j t.listeners ≡ get j s.listeners
  pub misses : get j t.missing ≡ get j s.missing

pub SameAt-refl : (j : Key) (s : Service) → SameAt j s s
SameAt-refl j s = record { cfg = refl; listener = refl; misses = refl }

pub SameMaps-SameAt : (j : Key) (s t : Service) → SameMaps s t → SameAt j s t
SameMaps-SameAt j s t m = record {
  cfg = m.cfg;
  listener = ap (get j) m.listeners;
  misses = ap (get j) m.missing;
}

pub SameAt-trans : (j : Key) (s t u : Service) → SameAt j s t → SameAt j t u → SameAt j s u
SameAt-trans j s t u p q = record {
  cfg = q.cfg ∙ p.cfg;
  listener = q.listener ∙ p.listener;
  misses = q.misses ∙ p.misses;
}

adopt-SameAt :
    (event : Key → Event) (j k : Key) (st : ListenerState) (s : Service)
    → key_beq k j ≡ false
    → SameAt j s (adopt event k st s)
unfolding adopt
adopt-SameAt event j k st s h = record {
  cfg = refl;
  listener = get-put_other k j (start_serving st) s.listeners h;
  misses = get-put_other k j 0 s.missing h;
}

pub warn-SameMaps : (o : Host) (k : Key) (s : Service) → SameMaps s (warn o k s)
unfolding warn
warn-SameMaps o k s = ground arith

remember_conflict-SameAt :
    (o : Host) (j k : Key) (w : Want) (s : Service)
    → key_beq k j ≡ false
    → SameAt j s (remember_conflict o k w s)
unfolding remember_conflict
remember_conflict-SameAt o j k w s h = ground (
  arith,
  warn-SameMaps o k (record s { listeners = put k (conflict_state w) s.listeners }),
  get-put_other k j (conflict_state w) s.listeners h,
)

pub start_new-SameAt :
    (o : Host) (j k : Key) (w : Want) (s : Service)
    → key_beq k j ≡ false
    → SameAt j s (start_new o (k, w) s)
start_new-SameAt o j k w s h =
    start_new_cases (SameAt j s) o k w s (λ st e. SameAt-refl j s)
      (λ e st t n b.
        SameAt-trans j s t _ (SameMaps-SameAt j s t b.maps) (adopt-SameAt added j k st t h))
      (λ e t f.
        SameAt-trans j s t _ (SameMaps-SameAt j s t f.maps) (remember_conflict-SameAt o j k w t h))

forget-SameAt : (j k : Key) (s : Service) → key_beq k j ≡ false → SameAt j s (forget k s)
unfolding forget
forget-SameAt j k s h = record {
  cfg = refl;
  listener = get-delete_other k j s.listeners h;
  misses = get-delete_other k j s.missing h;
}

forget_stopped-SameAt :
    (j k : Key) (st : ListenerState) (e : Event) (s : Service)
    → key_beq k j ≡ false
    → SameAt j s (forget k (stop st (log e s)))
unfolding forget stop
forget_stopped-SameAt j k st e s h = record {
  cfg = refl;
  listener = get-delete_other k j s.listeners h;
  misses = get-delete_other k j s.missing h;
}

put_missing-SameAt :
    (j k : Key) (n : ℕ) (s : Service)
    → key_beq k j ≡ false
    → SameAt j s (record s { missing = put k n s.missing })
put_missing-SameAt j k n s h = record {
  cfg = refl;
  listener = refl;
  misses = get-put_other k j n s.missing h;
}

pub maintain_key-SameAt :
    (o : Host) (res : ScanResult) (wants : Map Key Want) (j k : Key) (s : Service)
    → key_beq k j ≡ false
    → SameAt j s (maintain_key o res wants k s)
maintain_key-SameAt o res wants j k s h =
    maintain_key_cases (SameAt j s) o res wants k s (λ e. SameAt-refl j s)
      λ st e. record {
        yield = λ _. forget_stopped-SameAt j k st (yielded k) s h;
        drop = λ _ _. forget-SameAt j k s h;
        expire = λ _ _ _.
            SameAt-trans j s (counted k s) _ (put_missing-SameAt j k _ s h)
              (forget_stopped-SameAt j k st (stopped k) (counted k s) h);
        wait = λ _ _ _. put_missing-SameAt j k _ s h;
        resolve = λ w _ _ new t n b.
            SameAt-trans j s t _ (SameMaps-SameAt j s t b.maps) (adopt-SameAt resolved j k new t h);
        retry = λ w _ _ t f. SameMaps-SameAt j s t f.maps;
        keep = λ w _ _. put_missing-SameAt j k 0 s h;
      }
