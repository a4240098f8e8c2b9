-- ===== src/Proxy/Reconcile/Settings.antt =====
-- `Reconcile` leaves the settings as they are.
use nas_conn_plus.Base.{◌≡◌, refl, ◌∙◌, List, [], ◌∷◌, Map, put, keys}
use nas_conn_plus.Scanner.{ScanResult}
use nas_conn_plus.Proxy.{Key, key_eq, Want, Service}
use nas_conn_plus.Proxy.Listen.{Host, conflict_state}
use nas_conn_plus.Proxy.Wants.{pre_pass}
use nas_conn_plus.Proxy.Reconcile.{
  adopt, forget, stop, remember_conflict, start_new, start_all, maintain_key, maintain_all,
  reconcile_locked, reconcile,
}
use nas_conn_plus.Proxy.Reconcile.Cases.{start_new_cases, maintain_key_cases}
use nas_conn_plus.Proxy.Reconcile.Frame.{warn-SameMaps}
use nas_conn_plus.Proxy.Reconcile.Invariant.{wants_of, probed, pre_pass-SameMaps}

start_new-cfg : (o : Host) (kw : Key × Want) (s : Service) → (start_new o kw s).cfg ≡ s.cfg
unfolding adopt remember_conflict
start_new-cfg o (k, w) s =
    start_new_cases (λ t. t.cfg ≡ s.cfg) o k w s (λ st e. refl) (λ e st t n b. b.maps.cfg)
      (λ e t f.
        (warn-SameMaps o k (record t { listeners = put k (conflict_state w) t.listeners })).cfg
        ∙ f.maps.cfg)

pub start_all-cfg :
    (o : Host) (wants : Map Key Want) (s : Service) → (start_all o wants s).cfg ≡ s.cfg
unfolding start_all
start_all-cfg o [] s = refl
start_all-cfg o (kw ∷ wants) s = start_all-cfg o wants (start_new o kw s) ∙ start_new-cfg o kw s

maintain_key-cfg :
    (o : Host) (res : ScanResult) (wants : Map Key Want) (k : Key) (s : Service)
    → (maintain_key o res wants k s).cfg ≡ s.cfg
unfolding forget stop adopt
maintain_key-cfg o res wants k s =
    maintain_key_cases (λ t. t.cfg ≡ s.cfg) o res wants k s (λ e. refl)
      λ st e. record {
        yield = λ _. refl;
        drop = λ _ _. refl;
        expire = λ _ _ _. refl;
        wait = λ _ _ _. refl;
        resolve = λ w _ _ new t n b. b.maps.cfg;
        retry = λ w _ _ t f. f.maps.cfg;
        keep = λ w _ _. refl;
      }

maintain_all-cfg :
    (o : Host) (res : ScanResult) (wants : Map Key Want) (ks : List Key) (s : Service)
    → (maintain_all o res wants ks s).cfg ≡ s.cfg
unfolding maintain_all
maintain_all-cfg o res wants [] s = refl
maintain_all-cfg o res wants (k ∷ ks) s =
    maintain_all-cfg o res wants ks (maintain_key o res wants k s)
    ∙ maintain_key-cfg o res wants k s

pub reconcile-cfg : (o : Host) (res : ScanResult) (s : Service) → (reconcile o res s).cfg ≡ s.cfg
unfolding reconcile reconcile_locked
reconcile-cfg o res s =
    let t = pre_pass o.machine res s in
    let wants = wants_of o res t in
    let mid = start_all o wants (probed o res t) in
    maintain_all-cfg o res wants (keys mid.listeners) mid
    ∙ start_all-cfg o wants (probed o res t)
    ∙ (pre_pass-SameMaps o.machine res s).cfg
