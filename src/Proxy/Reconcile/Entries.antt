-- ===== src/Proxy/Reconcile/Entries.antt =====
-- What holds of the entry of a key, through the loops of `Reconcile`.
use nas_conn_plus.Base.{
  ℕ, ◌≡◌, sym, ap₂, ◌∙◌, inl, inr, none, some, true, false, Map, get, put, get-delete_self,
  Option-cases, arith,
}
use nas_conn_plus.Scanner.{ScanResult}
use nas_conn_plus.Proxy.{resolved, Key, key, key_eq, ListenerState, Want, Service}
use nas_conn_plus.Proxy.Listen.{Host}
use nas_conn_plus.Proxy.Reconcile.{adopt, forget, stop, start_all, maintain_key}
use nas_conn_plus.Proxy.Reconcile.Cases.{Bound, maintain_key_cases}
use nas_conn_plus.Proxy.Reconcile.Frame.{SameAt, SameMaps-SameAt}
use nas_conn_plus.Proxy.Reconcile.Loops.{
  HasSocket, Started, adopt-Started, start_all-SameAt_present, start_all-SameAt_absent,
  start_all-Started,
}

-- An entry stands under its own key, with a socket exactly if it is no conflict; only a listener is
-- counted as missing.
pub record KeyOk (k : Key) (s : Service) : Type 0 where
  pub key_is : (st : ListenerState) → get k s.listeners ≡ some st → k ≡ key st.kind st.port
  pub socket : (st : ListenerState) → get k s.listeners ≡ some st → HasSocket st
  pub counted_live :
      (n : ℕ)
      → get k s.missing ≡ some n
      → (st : ListenerState) × (get k s.listeners ≡ some st) × (st.conflict ≡ false)

pub KeyOk-SameAt : (k : Key) (s t : Service) → KeyOk k s → SameAt k s t → KeyOk k t
KeyOk-SameAt k s t ok' a = record {
  key_is = λ st e. ok'.key_is st (sym a.listener ∙ e);
  socket = λ st e. ok'.socket st (sym a.listener ∙ e);
  counted_live =
      λ n e. let (st, f, c) = ok'.counted_live n (sym a.misses ∙ e) in (st, a.listener ∙ f, c);
}

-- No count without a listener.
uncounted :
    (k : Key) (s : Service)
    → KeyOk k s
    → ((st : ListenerState) → get k s.listeners ≡ some st → st.conflict ≡ true)
    → get k s.missing ≡ none
uncounted k s ok' h = elim (Option-cases (get k s.missing)) [
  | inl e ↦ e
  | inr (n, e) ↦ let (st, f, c) = ok'.counted_live n e in cc (h st f)
]

Started-KeyOk :
    (k : Key) (w : Want) (s t : Service)
    → k ≡ key w.kind w.port
    → get k s.missing ≡ none
    → Started k w s t
    → KeyOk k t
Started-KeyOk k w s t key_is none_before d = record {
  key_is = λ st e.
      let same : st ≡ d.st = ground (arith, d.listener) in
      rw same (key_is ∙ ap₂ key (sym d.kind) (sym d.port));
  socket = λ st e. let same : st ≡ d.st = ground (arith, d.listener) in rw same d.socket;
  counted_live = λ n e. (d.st, d.listener, ground (arith, d.misses));
}

-- The wants stand under their own keys.
abbrev pub WantsKeyed : Map Key Want → Type 0
WantsKeyed wants = (k : Key) (w : Want) → get k wants ≡ some w → k ≡ key w.kind w.port

pub start_all-KeyOk :
    (o : Host) (wants : Map Key Want) (k : Key) (s : Service)
    → WantsKeyed wants
    → KeyOk k s
    → KeyOk k (start_all o wants s)
start_all-KeyOk o wants k s keyed ok' = elim (Option-cases (get k s.listeners)) [
  | inr (st, e) ↦ KeyOk-SameAt k s _ ok' (start_all-SameAt_present o k wants s st e)
  | inl e ↦ elim (Option-cases (get k wants)) [
    | inl f ↦ KeyOk-SameAt k s _ ok' (start_all-SameAt_absent o k wants s f)
    | inr (w, f) ↦
        Started-KeyOk k w s _ (keyed k w f) (uncounted k s ok' (λ st x. cc))
          (start_all-Started o k w wants s e f)
  ]
]

forget-KeyOk : (k : Key) (s : Service) → KeyOk k (forget k s)
unfolding forget
forget-KeyOk k s = record {
  key_is = λ st e. cc (get-delete_self k s.listeners);
  socket = λ st e. cc (get-delete_self k s.listeners);
  counted_live = λ n e. cc (get-delete_self k s.missing);
}

-- Setting the count of a listener.
count-KeyOk :
    (k : Key) (n : ℕ) (s : Service) (st : ListenerState)
    → KeyOk k s
    → get k s.listeners ≡ some st
    → st.conflict ≡ false
    → KeyOk k (record s { missing = put k n s.missing })
count-KeyOk k n s st ok' e c = record {
  key_is = ok'.key_is;
  socket = ok'.socket;
  counted_live = λ m f. (st, e, c);
}

-- A bound listener takes the place of a conflict.
resolve-KeyOk :
    (k : Key) (w : Want) (s t : Service) (st new : ListenerState) (n : ℕ)
    → k ≡ key w.kind w.port
    → KeyOk k s
    → get k s.listeners ≡ some st
    → st.conflict ≡ true
    → Bound w s t new n
    → KeyOk k (adopt resolved k new t)
resolve-KeyOk k w s t st new n keyed ok' e c b =
    Started-KeyOk k w s _ keyed (uncounted k s ok' (λ x f. ground arith))
      (adopt-Started resolved k w s t new n b)

pub maintain_key-KeyOk :
    (o : Host) (res : ScanResult) (wants : Map Key Want) (k : Key) (s : Service)
    → WantsKeyed wants
    → KeyOk k s
    → KeyOk k (maintain_key o res wants k s)
maintain_key-KeyOk o res wants k s keyed ok' =
    maintain_key_cases (KeyOk k) o res wants k s (λ e. ok')
      λ st e. record {
        yield = λ _. forget-KeyOk k (stop st _);
        drop = λ _ _. forget-KeyOk k s;
        expire = λ _ _ _. forget-KeyOk k (stop st _);
        wait = λ _ c _. count-KeyOk k _ s st ok' e c;
        resolve = λ w f c new t n b. resolve-KeyOk k w s t st new n (keyed k w f) ok' e c b;
        retry = λ w _ _ t f. KeyOk-SameAt k s t ok' (SameMaps-SameAt k s t f.maps);
        keep = λ w _ c. count-KeyOk k 0 s st ok' e c;
      }
