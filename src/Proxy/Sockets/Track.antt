-- ===== src/Proxy/Sockets/Track.antt =====
-- The three changes of the map that keep track of every socket.
use nas_conn_plus.Base.{
  ℕ, ◌≤◌, ◌<◌, ◌≡◌, sym, ◌∙◌, inl, inr, List, none, some, true, false, Map, put, delete, get-put,
  get-delete, ◌==◌, if◌then◌else◌, Bool-cases, Option-cases, arith,
}
use nas_conn_plus.Proxy.{Event, Key, key_beq, key_beq_iff, key_eq, ListenerState}
use nas_conn_plus.Proxy.Sockets.{is_open, ln_at, Tracked}

ln_at-put :
    (k j : Key) (st : ListenerState) (m : Map Key ListenerState)
    → ln_at j (put k st m) ≡ (if key_beq k j then st.ln else ln_at j m)
ln_at-put k j st m = ground (arith, get-put k j st m)

ln_at-delete :
    (k j : Key) (m : Map Key ListenerState)
    → ln_at j (delete k m) ≡ (if key_beq k j then none else ln_at j m)
ln_at-delete k j m = ground (arith, get-delete k j m)

module _ (m : Map Key ListenerState) (es es' : List Event) (calls calls' : ℕ)
    (v : Tracked m es calls) (more : calls ≤ calls') where
  -- Nothing is opened or closed, and the map stays.
  pub unchanged : ((q : ℕ) → is_open q es' ≡ is_open q es) → Tracked m es' calls'
  unchanged same = record {
    held = λ n e. v.held n (sym (same n) ∙ e);
    is_live = λ k n e. same n ∙ v.is_live k n e;
    one_key = v.one_key;
    known = λ n e. omega (arith, v.known n (sym (same n) ∙ e));
    quiet = v.quiet;
  }

  -- An entry without a socket takes the place of one without.
  pub blank :
      (k : Key) (st : ListenerState)
      → ((q : ℕ) → is_open q es' ≡ is_open q es)
      → ln_at k m ≡ none
      → st.ln ≡ none
      → Tracked (put k st m) es' calls'
  blank k st same free none' = record {
    held = λ n e.
        let (j, h) = v.held n (sym (same n) ∙ e) in
        (j, ground (arith, ln_at-put k j st m, key_beq_iff k j));
    is_live = λ j n e. same n ∙ v.is_live j n (ground (arith, ln_at-put k j st m));
    one_key = λ i j n e f.
        v.one_key i j n (ground (arith, ln_at-put k i st m)) (ground (arith, ln_at-put k j st m));
    known = λ n e. omega (arith, v.known n (sym (same n) ∙ e));
    quiet = λ j t e c. ground (arith, get-put k j st m, v.quiet j t);
  }

  -- A new socket goes to a key without one.
  pub install :
      (k : Key) (st : ListenerState) (new : ℕ)
      → ((q : ℕ) → is_open q es' ≡ (if new == q then true else is_open q es))
      → ln_at k m ≡ none
      → st.ln ≡ some new
      → st.conflict ≡ false
      → calls < new
      → new ≤ calls'
      → Tracked (put k st m) es' calls'
  install k st new same free ln live' fresh last = record {
    held = λ n e. elim (Bool-cases (new == n)) [
      | inl now ↦ (k, ground (arith, ln_at-put k k st m, key_beq_iff k k))
      | inr old ↦
          let (j, h) = v.held n (ground (arith, same n)) in
          (j, ground (arith, ln_at-put k j st m, key_beq_iff k j))
    ];
    is_live = λ j n e. ground (arith, same n, ln_at-put k j st m, v.is_live j n);
    one_key = λ i j n e f. ground (
      arith,
      ln_at-put k i st m,
      ln_at-put k j st m,
      key_beq_iff k i,
      key_beq_iff k j,
      v.one_key i j n,
      v.is_live i n,
      v.is_live j n,
      v.known n,
    );
    known = λ n e. ground (arith, same n, v.known n);
    quiet = λ j t e c. ground (arith, get-put k j st m, v.quiet j t);
  }

  -- An entry goes, and its socket is closed.
  pub vacate :
      (k : Key)
      → ((q : ℕ) (n : ℕ)
          → ln_at k m ≡ some n
          → is_open q es' ≡ (if n == q then false else is_open q es))
      → (ln_at k m ≡ none → (q : ℕ) → is_open q es' ≡ is_open q es)
      → Tracked (delete k m) es' calls'
  vacate k closes same = elim (Option-cases (ln_at k m)) [
    | inl free ↦ record {
      held = λ n e.
          let (j, h) = v.held n (sym (same free n) ∙ e) in
          (j, ground (arith, ln_at-delete k j m, key_beq_iff k j));
      is_live = λ j n e. ground (arith, same free n, ln_at-delete k j m, v.is_live j n);
      one_key = λ i j n e f.
          v.one_key i j n (ground (arith, ln_at-delete k i m)) (ground (arith, ln_at-delete k j m));
      known = λ n e. ground (arith, same free n, v.known n);
      quiet = λ j t e c. ground (arith, get-delete k j m, v.quiet j t);
    }
    | inr (gone, at) ↦ record {
      held = λ n e.
          let (j, h) = v.held n (ground (arith, closes n gone at)) in
          (j, ground (arith, closes n gone at, ln_at-delete k j m, key_beq_iff k j));
      is_live = λ j n e. ground (
        arith,
        closes n gone at,
        ln_at-delete k j m,
        key_beq_iff k j,
        v.is_live j n,
        v.one_key k j n,
      );
      one_key = λ i j n e f.
          v.one_key i j n (ground (arith, ln_at-delete k i m)) (ground (arith, ln_at-delete k j m));
      known = λ n e. ground (arith, closes n gone at, v.known n);
      quiet = λ j t e c. ground (arith, get-delete k j m, v.quiet j t);
    }
  ]
