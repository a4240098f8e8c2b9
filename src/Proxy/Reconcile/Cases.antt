-- ===== src/Proxy/Reconcile/Cases.antt =====
-- The ways through a round of each loop of `Reconcile`, as one rule for each loop.
use nas_conn_plus.Base.{
  ℕ, suc, ◌<◌, pos, leb_ℤ, Str, ◌≡◌, refl, ◌⊎◌, inl, inr, ◌∷◌, none, some, Bool, true, false, ◌&&◌,
  Map, get, put, mem, int_eq, ok, err, Bool-cases, Option-cases, arith,
}
use nas_conn_plus.Scanner.{ScanResult}
use nas_conn_plus.Proxy.{
  opened, added, resolved, stopped, yielded, Key, key_eq, ListenerState, Want, Service,
}
use nas_conn_plus.Proxy.Listen.{Host, later, log, fresh_state, limit, try_listen}
use nas_conn_plus.Proxy.Reconcile.{
  adopt, remember_conflict, start_result, start_new, forget, stop, missed, unwanted, retry_result,
  wanted, is_relay, maintain, maintain_key,
}

-- The service's maps and settings.
pub record SameMaps (s t : Service) : Type 0 where
  pub cfg : t.cfg ≡ s.cfg
  pub listeners : t.listeners ≡ s.listeners
  pub missing : t.missing ≡ s.missing

-- The port of the want could not be bound by a call after the one and before the other.
abbrev pub Busy : Host → ℕ → ℕ → Want → Type 0
Busy o from to w = (n : ℕ) × (e : Str) × (from < n) × (n < to) × (o.bind n w.kind w.port ≡ some e)

-- A bind that failed changes none of the maps and opens nothing.
pub record Refused (o : Host) (w : Want) (s t : Service) : Type 0 where
  pub busy : Busy o s.runtime.calls t.runtime.calls w
  pub maps : SameMaps s t
  pub events : t.events ≡ s.events
  pub calls : s.runtime.calls < t.runtime.calls

-- A bind that succeeded opens a socket with a number that is new.
pub record Bound (w : Want) (s t : Service) (st : ListenerState) (n : ℕ) : Type 0 where
  pub maps : SameMaps s t
  pub events : t.events ≡ opened n ∷ s.events
  pub new : s.runtime.calls < n
  pub calls : n < t.runtime.calls
  pub ln : st.ln ≡ some n
  pub kind : st.kind ≡ w.kind
  pub port : st.port ≡ w.port
  pub backend : st.backend ≡ w.backend
  pub live : st.conflict ≡ false
  pub quiet : st.http_server ≡ false

abbrev pub Tried : Host → Want → Service → Type 0
Tried o w s =
    ((e : Str) × (t : Service) × (try_listen o w s ≡ (err e, t)) × Refused o w s t)
    ⊎ ((st : ListenerState) × (t : Service) × (n : ℕ) × (try_listen o w s ≡ (ok st, t))
        × Bound w s t st n)

pub try_listen_cases : (o : Host) (w : Want) (s : Service) → Tried o w s
unfolding try_listen fresh_state
try_listen_cases o w s = elim (Option-cases (o.bind (suc s.runtime.calls) w.kind w.port)) [
  | inl free ↦
      let n = suc s.runtime.calls in
      inr (
        fresh_state w (o.now s.runtime.calls) (some n) (limit s.cfg.max_conns_per_listener) false,
        log (opened n) (later (suc n) s),
        n,
        rw free refl,
        ground arith,
      )
  | inr (e, busy) ↦ inl (
    e,
    later (suc (suc s.runtime.calls)) s,
    rw busy refl,
    record {
      busy = (suc s.runtime.calls, e, omega arith, omega arith, busy);
      maps = record { cfg = refl; listeners = refl; missing = refl };
      events = refl;
      calls = omega arith;
    },
  )
]

-- A round of the loop that starts listeners.
pub start_new_cases :
    (P : Service → Type 0) (o : Host) (k : Key) (w : Want) (s : Service)
    → ((st : ListenerState) → get k s.listeners ≡ some st → P s)
    → (get k s.listeners ≡ none
        → (st : ListenerState) (t : Service) (n : ℕ) → Bound w s t st n
        → P (adopt added k st t))
    → (get k s.listeners ≡ none → (t : Service) → Refused o w s t → P (remember_conflict o k w t))
    → P (start_new o (k, w) s)
unfolding start_new start_result
start_new_cases P o k w s old bound refused = elim (Option-cases (get k s.listeners)) [
  | inr (st, e) ↦ rw (e, start_new) (old st e)
  | inl e ↦ elim (try_listen_cases o w s) [
    | inl (x, t, r, f) ↦ rw (e, start_new, r) (refused e t f)
    | inr (st, t, n, r, b) ↦ rw (e, start_new, r) (bound e st t n b)
  ]
]

abbrev pub counted : Key → Service → Service
counted k s = record s { missing = put k (missed (get k s.missing)) s.missing }

abbrev pub is_out : Key → Service → Bool
is_out k s = leb_ℤ s.cfg.grace_polls (pos (missed (get k s.missing)))

-- The ways through a round of the loop that maintains the listener `st`.
pub record Rounds (P : Service → Type 0) (o : Host) (res : ScanResult) (wants : Map Key Want)
    (k : Key) (s : Service) (st : ListenerState) : Type 0 where
  pub yield :
      (is_relay st.kind && mem st.port res.v6_others) ≡ true
      → P (forget k (stop st (log (yielded k) s)))
  pub drop : get k wants ≡ none → st.conflict ≡ true → P (forget k s)
  pub expire :
      get k wants ≡ none
      → st.conflict ≡ false
      → is_out k s ≡ true
      → P (forget k (stop st (log (stopped k) (counted k s))))
  pub wait : get k wants ≡ none → st.conflict ≡ false → is_out k s ≡ false → P (counted k s)
  pub resolve :
      (w : Want)
      → get k wants ≡ some w
      → st.conflict ≡ true
      → (new : ListenerState) (t : Service) (n : ℕ) → Bound w s t new n
      → P (adopt resolved k new t)
  pub retry :
      (w : Want) → get k wants ≡ some w → st.conflict ≡ true → (t : Service) → Refused o w s t → P t
  pub keep :
      (w : Want)
      → get k wants ≡ some w
      → st.conflict ≡ false
      → P (record s { missing = put k 0 s.missing })

maintain_cases :
    (P : Service → Type 0) (o : Host) (res : ScanResult) (wants : Map Key Want) (k : Key)
    (st : ListenerState) (s : Service)
    → Rounds P o res wants k s st
    → P (maintain o res wants k st s)
unfolding maintain unwanted wanted retry_result
maintain_cases P o res wants k st s r =
    elim (Bool-cases (is_relay st.kind && mem st.port res.v6_others)) [
      | inl out ↦ rw out (r.yield out)
      | inr here ↦ rw here (elim (Option-cases (get k wants)) [
        | inl e ↦
            rw (e, maintain)
              (elim (Bool-cases st.conflict) [
                | inl c ↦ simp c (r.drop e c)
                | inr c ↦ simp c (elim (Bool-cases (is_out k s)) [
                  | inl x ↦ rw x (r.expire e c x)
                  | inr x ↦ rw x (r.wait e c x)
                ])
              ])
        | inr (w, e) ↦
            rw (e, maintain)
              (elim (Bool-cases st.conflict) [
                | inl c ↦ simp c (elim (try_listen_cases o w s) [
                  | inl (x, t, q, f) ↦ rw q (r.retry w e c t f)
                  | inr (new, t, n, q, b) ↦ rw q (r.resolve w e c new t n b)
                ])
                | inr c ↦ simp c (r.keep w e c)
              ])
      ])
    ]

-- A round of the loop that maintains listeners.
pub maintain_key_cases :
    (P : Service → Type 0) (o : Host) (res : ScanResult) (wants : Map Key Want) (k : Key)
    (s : Service)
    → (get k s.listeners ≡ none → P s)
    → ((st : ListenerState) → get k s.listeners ≡ some st → Rounds P o res wants k s st)
    → P (maintain_key o res wants k s)
unfolding maintain_key
maintain_key_cases P o res wants k s absent present = elim (Option-cases (get k s.listeners)) [
  | inl e ↦ rw (e, maintain_key) (absent e)
  | inr (st, e) ↦ rw (e, maintain_key) (maintain_cases P o res wants k st s (present st e))
]
