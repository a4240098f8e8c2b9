-- ===== src/Proxy/Life/Rounds.antt =====
-- What one round of a loop of `Reconcile` does to the slot of a key.
use nas_conn_plus.Base.{
  ℕ, suc, int_eq, ◌≡◌, refl, ap, ap₂, ◌∙◌, ◌⊎◌, inl, inr, Option, none, some, true, false, ◌&&◌,
  Map, get, put, mem, get-put_self, get-delete_self, Option-cases, Bool-cases, arith,
}
use nas_conn_plus.Scanner.{ScanResult}
use nas_conn_plus.Proxy.{resolved, Key, key_eq, ListenerState, Want, Service}
use nas_conn_plus.Proxy.Listen.{Host, start_serving}
use nas_conn_plus.Proxy.Wants.Justified.{Justified}
use nas_conn_plus.Proxy.Reconcile.{adopt, forget, missed, is_relay, maintain_key}
use nas_conn_plus.Proxy.Reconcile.Cases.{Busy, Bound, maintain_key_cases}
use nas_conn_plus.Proxy.Reconcile.Frame.{SameAt, SameMaps-SameAt}
use nas_conn_plus.Proxy.Reconcile.Loops.{Started}
use nas_conn_plus.Proxy.Reconcile.Entries.{KeyOk}
use nas_conn_plus.Proxy.Life.{
  absent, conflicted, live, count, slot_of, slot, yields, MadeFor, Edge, start, contend, hold, miss,
  expire, drop, yield,
}

pub slot-SameAt : (k : Key) (s t : Service) → SameAt k s t → slot k t ≡ slot k s
unfolding slot
slot-SameAt k s t a = ap₂ slot_of a.listener a.misses

pub slot-forget : (k : Key) (s : Service) → slot k (forget k s) ≡ absent
unfolding slot forget
slot-forget k s = rw (get-delete_self k s.listeners)

pub slot-conflicted :
    (k : Key) (s : Service) (st : ListenerState)
    → get k s.listeners ≡ some st
    → st.conflict ≡ true
    → slot k s ≡ conflicted
unfolding slot
slot-conflicted k s st e c = ground arith

pub slot-live :
    (k : Key) (s : Service) (st : ListenerState)
    → get k s.listeners ≡ some st
    → st.conflict ≡ false
    → slot k s ≡ live st (count (get k s.missing))
unfolding slot
slot-live k s st e c = ground arith

pub Started-slot :
    (k : Key) (w : Want) (s t : Service)
    → Started k w s t
    → (slot k t ≡ conflicted) ⊎ ((st : ListenerState) × MadeFor w st × (slot k t ≡ live st 0))
unfolding slot
Started-slot k w s t d = elim (Bool-cases d.st.conflict) [
  | inl c ↦ inl (slot-conflicted k t d.st d.listener c)
  | inr c ↦ inr (
    d.st,
    record { kind = d.kind; port = d.port; backend = d.backend; live = c },
    ground (arith, d.listener, d.misses),
  )
]

-- A wanted key does not give way: no relay is wanted where a foreign IPv6 listener is.
pub Justified-stays :
    (s : Service) (res : ScanResult) (k : Key) (w : Want)
    → Justified s res k w
    → yields res k ≡ false
Justified-stays s res k w (inl e) = rw e.key_is
Justified-stays s res k w (inr (inl u)) = rw u.key_is
Justified-stays s res k w (inr (inr m)) = rw m.key_is m.no_v6

-- The key's own port decides whether it gives way, and then it is not wanted.
gives_way :
    (res : ScanResult) (k : Key) (s : Service) (st : ListenerState)
    → KeyOk k s
    → get k s.listeners ≡ some st
    → (is_relay st.kind && mem st.port res.v6_others) ≡ true
    → yields res k ≡ true
gives_way res k s st ok' e y = ap (yields res) (ok'.key_is st e) ∙ y

pub unwanted_yield :
    (res : ScanResult) (wants : Map Key Want) (k : Key)
    → ((w : Want) → get k wants ≡ some w → yields res k ≡ false)
    → yields res k ≡ true
    → get k wants ≡ none
unwanted_yield res wants k stays y = elim (Option-cases (get k wants)) [
  | inl v ↦ v
  | inr (w, v) ↦ cc (stays w v)
]

pub missed-count : (o : Option ℕ) → missed o ≡ suc (count o)
unfolding missed
missed-count none = refl
missed-count (some n) = refl

-- A listener whose count is set to `n`.
pub slot-counted :
    (k : Key) (n : ℕ) (s : Service) (st : ListenerState)
    → get k s.listeners ≡ some st
    → st.conflict ≡ false
    → slot k (record s { missing = put k n s.missing }) ≡ live st n
unfolding slot
slot-counted k n s st e c = ground (arith, get-put_self k n s.missing)

pub slot-resolved :
    (k : Key) (w : Want) (s t : Service) (new : ListenerState) (n : ℕ)
    → Bound w s t new n
    → (st : ListenerState) × MadeFor w st × (slot k (adopt resolved k new t) ≡ live st 0)
unfolding slot adopt start_serving
slot-resolved k w s t new n b = (
  start_serving new,
  record {
    kind = ground (arith, b.kind);
    port = ground (arith, b.port);
    backend = ground (arith, b.backend);
    live = ground (arith, b.live);
  },
  ground
      (arith, b.live, get-put_self k (start_serving new) t.listeners, get-put_self k 0 t.missing),
)

-- The round of a key that has an entry.
pub maintain_key-Edge :
    (o : Host) (res : ScanResult) (wants : Map Key Want) (k : Key) (s : Service)
    (st : ListenerState)
    → KeyOk k s
    → ((w : Want) → get k wants ≡ some w → yields res k ≡ false)
    → get k s.listeners ≡ some st
    → Edge
        (Busy o s.runtime.calls (maintain_key o res wants k s).runtime.calls)
        (get k wants)
        (yields res k)
        s.cfg.grace_polls
        (slot k s)
        (slot k (maintain_key o res wants k s))
maintain_key-Edge o res wants k s st ok' stays e =
    maintain_key_cases
      (λ t.
        Edge (Busy o s.runtime.calls t.runtime.calls) (get k wants) (yields res k) s.cfg.grace_polls
          (slot k s) (slot k t))
      o res wants k s (λ f. cc)
      λ st' e'. record {
        yield = λ y.
            let g = gives_way res k s st' ok' e' y in
            yield (unwanted_yield res wants k stays g) g (slot-forget k _);
        drop = λ v c. drop v (slot-conflicted k s st' e' c) (slot-forget k s);
        expire = λ v c x.
            expire st' (count (get k s.missing)) v (slot-live k s st' e' c)
              (ground (arith, missed-count (get k s.missing))) (slot-forget k _);
        wait = λ v c x.
            miss st' (count (get k s.missing)) v (slot-live k s st' e' c)
              (ground (arith, missed-count (get k s.missing)))
              (slot-counted k _ s st' e' c ∙ ap (live st') (missed-count (get k s.missing)));
        resolve = λ w v c new t n b.
            let (l, m, at) = slot-resolved k w s t new n b in
            start w l v (inr (slot-conflicted k s st' e' c)) m at;
        retry = λ w v c t f.
            contend w v f.busy (inr (slot-conflicted k s st' e' c))
              (slot-SameAt k s t (SameMaps-SameAt k s t f.maps) ∙ slot-conflicted k s st' e' c);
        keep = λ w v c.
            hold w st' (count (get k s.missing)) v (slot-live k s st' e' c)
              (slot-counted k 0 s st' e' c);
      }
