-- ===== src/Proxy/Reconcile/Rounds.antt =====
-- The keys through the loops of `Reconcile`, and the one round that a key has.
use nas_conn_plus.Base.{
  ◌≤◌, ◌≡◌, sym, subst, inl, inr, List, [], ◌∷◌, true, false, Map, put, keys, mem, distinct,
  distinct-put, Bool-cases, arith,
}
use nas_conn_plus.Scanner.{ScanResult}
use nas_conn_plus.Proxy.{Key, key_beq, key_eq, key_beq_iff, Want, Service}
use nas_conn_plus.Proxy.Listen.{Host, conflict_state, start_serving}
use nas_conn_plus.Proxy.Reconcile.{
  adopt, remember_conflict, warn, forget, stop, start_new, start_all, maintain_key, maintain_all,
}
use nas_conn_plus.Proxy.Reconcile.Cases.{start_new_cases, maintain_key_cases}
use nas_conn_plus.Proxy.Reconcile.Frame.{
  SameAt, SameAt-refl, SameAt-trans, warn-SameMaps, maintain_key-SameAt,
}

start_new-distinct :
    (o : Host) (kw : Key × Want) (s : Service)
    → distinct (keys s.listeners) ≡ true
    → distinct (keys (start_new o kw s).listeners) ≡ true
unfolding adopt remember_conflict
start_new-distinct o (k, w) s d =
    start_new_cases (λ t. distinct (keys t.listeners) ≡ true) o k w s (λ st e. d)
      (λ e st t n b.
        distinct-put k (start_serving st) t.listeners
          (subst (λ m. distinct (keys m) ≡ true) (sym b.maps.listeners) d))
      (λ e t f.
        let m = warn-SameMaps o k (record t { listeners = put k (conflict_state w) t.listeners }) in
        subst (λ x. distinct (keys x) ≡ true) (sym m.listeners)
          (distinct-put k (conflict_state w) t.listeners
            (subst (λ x. distinct (keys x) ≡ true) (sym f.maps.listeners) d)))

pub start_all-distinct :
    (o : Host) (wants : Map Key Want) (s : Service)
    → distinct (keys s.listeners) ≡ true
    → distinct (keys (start_all o wants s).listeners) ≡ true
unfolding start_all
start_all-distinct o [] s h = h
start_all-distinct o (kw ∷ wants) s h =
    start_all-distinct o wants (start_new o kw s) (start_new-distinct o kw s h)

-- A round changes nothing for a key that is not its own, so neither do all of them.
pub maintain_all-SameAt :
    (o : Host) (res : ScanResult) (wants : Map Key Want) (j : Key) (ks : List Key) (s : Service)
    → mem j ks ≡ false
    → SameAt j s (maintain_all o res wants ks s)
unfolding maintain_all mem
maintain_all-SameAt o res wants j [] s e = SameAt-refl j s
maintain_all-SameAt o res wants j (k ∷ ks) s e =
    SameAt-trans j s _ _
      (maintain_key-SameAt o res wants j k s (ground (arith, key_beq_iff j k, key_beq_iff k j)))
      (maintain_all-SameAt o res wants j ks (maintain_key o res wants k s) (ground arith))

-- The calls are counted on.
pub start_new-calls :
    (o : Host) (kw : Key × Want) (s : Service) → s.runtime.calls ≤ (start_new o kw s).runtime.calls
unfolding adopt remember_conflict warn
start_new-calls o (k, w) s =
    start_new_cases (λ t. s.runtime.calls ≤ t.runtime.calls) o k w s (λ st e. omega arith)
      (λ e st t n b. omega (arith, b.new, b.calls)) (λ e t f. ground (arith, f.calls))

pub start_all-calls :
    (o : Host) (wants : Map Key Want) (s : Service)
    → s.runtime.calls ≤ (start_all o wants s).runtime.calls
unfolding start_all
start_all-calls o [] s = omega arith
start_all-calls o (kw ∷ wants) s =
    omega (arith, start_new-calls o kw s, start_all-calls o wants (start_new o kw s))

maintain_key-calls :
    (o : Host) (res : ScanResult) (wants : Map Key Want) (k : Key) (s : Service)
    → s.runtime.calls ≤ (maintain_key o res wants k s).runtime.calls
unfolding adopt forget stop
maintain_key-calls o res wants k s =
    maintain_key_cases (λ t. s.runtime.calls ≤ t.runtime.calls) o res wants k s (λ e. omega arith)
      λ st e. record {
        yield = λ _. omega arith;
        drop = λ _ _. omega arith;
        expire = λ _ _ _. omega arith;
        wait = λ _ _ _. omega arith;
        resolve = λ w _ _ new t n b. omega (arith, b.new, b.calls);
        retry = λ w _ _ t f. omega (arith, f.calls);
        keep = λ w _ _. omega arith;
      }

maintain_all-calls :
    (o : Host) (res : ScanResult) (wants : Map Key Want) (ks : List Key) (s : Service)
    → s.runtime.calls ≤ (maintain_all o res wants ks s).runtime.calls
unfolding maintain_all
maintain_all-calls o res wants [] s = omega arith
maintain_all-calls o res wants (k ∷ ks) s = omega (
  arith,
  maintain_key-calls o res wants k s,
  maintain_all-calls o res wants ks (maintain_key o res wants k s),
)

-- The loop does to a key what one round does to it, from a service that has the same entries there.
pub record OneRound (o : Host) (res : ScanResult) (wants : Map Key Want) (k : Key)
    (before after : Service) : Type 0 where
  pub mid : Service
  pub same : SameAt k before mid
  pub round : SameAt k (maintain_key o res wants k mid) after
  pub calls :
      (before.runtime.calls ≤ mid.runtime.calls)
      × ((maintain_key o res wants k mid).runtime.calls ≤ after.runtime.calls)

pub maintain_all-OneRound :
    (o : Host) (res : ScanResult) (wants : Map Key Want) (j : Key) (ks : List Key) (s : Service)
    → distinct ks ≡ true
    → mem j ks ≡ true
    → OneRound o res wants j s (maintain_all o res wants ks s)
unfolding maintain_all mem distinct
maintain_all-OneRound o res wants j [] s d m = cc
maintain_all-OneRound o res wants j (k ∷ ks) s d m = elim (Bool-cases (key_beq k j)) [
  | inr other ↦
      let r =
        maintain_all-OneRound o res wants j ks (maintain_key o res wants k s) (ground arith)
          (ground (arith, key_beq_iff j k, key_beq_iff k j)) in
      record {
        mid = r.mid;
        same = SameAt-trans j s _ r.mid (maintain_key-SameAt o res wants j k s other) r.same;
        round = r.round;
        calls = (omega (arith, maintain_key-calls o res wants k s, r.calls.0), r.calls.1);
      }
  | inl same ↦
      subst
        (λ i. OneRound o res wants i s (maintain_all o res wants ks (maintain_key o res wants k s)))
        ((key_beq_iff k j).0 same)
        (record {
          mid = s;
          same = SameAt-refl k s;
          round =
              maintain_all-SameAt o res wants k ks (maintain_key o res wants k s) (ground arith);
          calls = (omega arith, maintain_all-calls o res wants ks (maintain_key o res wants k s));
        })
]
