-- ===== src/Proxy/Reconcile/Invariant.antt =====
-- What holds of each entry of the service's maps between two polls.
use nas_conn_plus.Base.{
  ◌≡◌, refl, sym, ap, subst, ◌∙◌, ◌⊎◌, inl, inr, List, [], ◌∷◌, none, some, true, Map, get, has,
  keys, distinct, mem-keys, distinct-put, distinct-delete, Option-cases, arith,
}
use nas_conn_plus.Scanner.{ScanResult}
use nas_conn_plus.Scanner.Prober.{Machine}
use nas_conn_plus.Proxy.{Key, key, key_eq, ListenerState, Want, Service}
use nas_conn_plus.Proxy.Listen.{Host, start_serving}
use nas_conn_plus.Proxy.Wants.{pre_pass, build_wants}
use nas_conn_plus.Proxy.Wants.Justified.{Justified}
use nas_conn_plus.Proxy.Wants.Sound.{build_wants-Justified}
use nas_conn_plus.Proxy.Reconcile.{
  adopt, forget, stop, start_all, maintain_key, maintain_all, reconcile_locked, reconcile,
}
use nas_conn_plus.Proxy.Reconcile.Cases.{SameMaps, maintain_key_cases}
use nas_conn_plus.Proxy.Reconcile.Frame.{SameAt, SameMaps-SameAt}
use nas_conn_plus.Proxy.Reconcile.Rounds.{
  start_all-distinct, OneRound, maintain_all-OneRound, maintain_all-SameAt,
}
use nas_conn_plus.Proxy.Reconcile.Entries.{
  KeyOk, KeyOk-SameAt, WantsKeyed, start_all-KeyOk, maintain_key-KeyOk,
}

-- What a poll does to a key: the start, and one round if there is an entry then.
pub reconcile_locked_at :
    (o : Host) (res : ScanResult) (wants : Map Key Want) (k : Key) (s : Service)
    → distinct (keys s.listeners) ≡ true
    → let mid = start_all o wants s in
      let end = maintain_all o res wants (keys mid.listeners) mid in
      ((get k mid.listeners ≡ none) × SameAt k mid end)
      ⊎ (((st : ListenerState) × (get k mid.listeners ≡ some st)) × OneRound o res wants k mid end)
reconcile_locked_at o res wants k s d =
    let mid = start_all o wants s in
    let known = mem-keys k mid.listeners in
    elim (Option-cases (get k mid.listeners)) [
      | inl e ↦
          inl (e, maintain_all-SameAt o res wants k (keys mid.listeners) mid (rw (e, has) at known))
      | inr (st, e) ↦ inr (
        (st, e),
        maintain_all-OneRound o res wants k (keys mid.listeners) mid
            (start_all-distinct o wants s d) (rw (e, has) at known),
      )
    ]

-- The wants of a poll, and the service when the lock is taken.
abbrev pub wants_of : Host → ScanResult → Service → Map Key Want
wants_of o res s = (build_wants o.machine s res).0

abbrev pub probed : Host → ScanResult → Service → Service
probed o res s = record s { runtime = (build_wants o.machine s res).1 }

Justified-key :
    (s : Service) (res : ScanResult) (k : Key) (w : Want)
    → Justified s res k w
    → k ≡ key w.kind w.port
Justified-key s res k w (inl e) = e.key_is ∙ ap (λ x. key x w.port) (sym e.kind)
Justified-key s res k w (inr (inl u)) = u.key_is ∙ ap (λ x. key x w.port) (sym u.kind)
Justified-key s res k w (inr (inr m)) = m.key_is ∙ ap (λ x. key x w.port) (sym m.kind)

pub wants_of-WantsKeyed :
    (o : Host) (res : ScanResult) (s : Service) → WantsKeyed (wants_of o res s)
wants_of-WantsKeyed o res s k w e =
    Justified-key s res k w (build_wants-Justified o.machine s res k w e)

pub record Inv (s : Service) : Type 0 where
  pub one_each : distinct (keys s.listeners) ≡ true
  pub entries : (k : Key) → KeyOk k s

maintain_key-distinct :
    (o : Host) (res : ScanResult) (wants : Map Key Want) (k : Key) (s : Service)
    → distinct (keys s.listeners) ≡ true
    → distinct (keys (maintain_key o res wants k s).listeners) ≡ true
unfolding forget stop adopt
maintain_key-distinct o res wants k s d =
    let gone = distinct-delete k s.listeners d in
    let same = λ (t : Service) (m : SameMaps s t).
      subst (λ x. distinct (keys x) ≡ true) (sym m.listeners) d in
    maintain_key_cases (λ t. distinct (keys t.listeners) ≡ true) o res wants k s (λ e. d)
      λ st e. record {
        yield = λ _. gone;
        drop = λ _ _. gone;
        expire = λ _ _ _. gone;
        wait = λ _ _ _. d;
        resolve = λ w _ _ new t n b. distinct-put k (start_serving new) t.listeners (same t b.maps);
        retry = λ w _ _ t f. same t f.maps;
        keep = λ w _ _. d;
      }

maintain_all-distinct :
    (o : Host) (res : ScanResult) (wants : Map Key Want) (ks : List Key) (s : Service)
    → distinct (keys s.listeners) ≡ true
    → distinct (keys (maintain_all o res wants ks s).listeners) ≡ true
unfolding maintain_all
maintain_all-distinct o res wants [] s d = d
maintain_all-distinct o res wants (k ∷ ks) s d =
    maintain_all-distinct o res wants ks (maintain_key o res wants k s)
      (maintain_key-distinct o res wants k s d)

OneRound-KeyOk :
    (o : Host) (res : ScanResult) (wants : Map Key Want) (k : Key) (s t : Service)
    → WantsKeyed wants
    → KeyOk k s
    → OneRound o res wants k s t
    → KeyOk k t
OneRound-KeyOk o res wants k s t keyed ok' r =
    KeyOk-SameAt k _ t
      (maintain_key-KeyOk o res wants k r.mid keyed (KeyOk-SameAt k s r.mid ok' r.same)) r.round

-- The part of a poll under the lock keeps the maps in order.
pub reconcile_locked-Inv :
    (o : Host) (res : ScanResult) (s : Service) → Inv s → Inv (reconcile_locked o res s)
unfolding reconcile_locked
reconcile_locked-Inv o res s v =
    let wants = wants_of o res s in
    let s' = probed o res s in
    let keyed = wants_of-WantsKeyed o res s in
    let mid = start_all o wants s' in
    record {
      one_each =
          maintain_all-distinct o res wants (keys mid.listeners) mid
            (start_all-distinct o wants s' v.one_each);
      entries = λ k.
          let before : KeyOk k s' =
            KeyOk-SameAt k s s' (v.entries k)
              (record { cfg = refl; listener = refl; misses = refl }) in
          let ok' = start_all-KeyOk o wants k s' keyed before in
          elim (reconcile_locked_at o res wants k s' v.one_each) [
            | inl (e, same) ↦ KeyOk-SameAt k mid _ ok' same
            | inr (p, r) ↦ OneRound-KeyOk o res wants k mid _ keyed ok' r
          ];
    }

pub pre_pass-SameMaps :
    (o : Machine) (res : ScanResult) (s : Service) → SameMaps s (pre_pass o res s)
unfolding pre_pass
pre_pass-SameMaps o res s = ground arith

-- Every poll keeps the maps in order: a key has one entry, which stands under its own kind and port;
-- a conflict holds no socket, any other entry does; only an entry that is no conflict is counted as
-- missing.
pub reconcile-Inv : (o : Host) (res : ScanResult) (s : Service) → Inv s → Inv (reconcile o res s)
unfolding reconcile
reconcile-Inv o res s v =
    let m = pre_pass-SameMaps o.machine res s in
    reconcile_locked-Inv o res (pre_pass o.machine res s) (record {
      one_each = subst (λ x. distinct (keys x) ≡ true) (sym m.listeners) v.one_each;
      entries = λ k. KeyOk-SameAt k s _ (v.entries k) (SameMaps-SameAt k s _ m);
    })
