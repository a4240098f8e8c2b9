-- ===== src/Proxy/Relay/Active.antt =====
-- The number of active connections of a relay.
use nas_conn_plus.Base.{
  ℕ, zero, suc, ◌+◌, pos, ◌+ℤ◌, ◌≡◌, refl, ap, subst, ◌∙◌, inl, inr, List, [], ◌∷◌, ◌++◌, some,
  Bool, true, false, Option-cases, ℤ, length, length-append, if◌then◌else◌, arith,
}
use nas_conn_plus.Metrics.{u64}
use nas_conn_plus.Proxy.Limit.{run_once}
use nas_conn_plus.Proxy.Http.{count, enter, leave}
use nas_conn_plus.Proxy.Relay.{
  Relay, accept_conn, close_conn, counted_out, read_conn, write_conn, dial_failed, Step, accepts,
  closes, reads, writes, passes, misses, counting, handed, Steps, none_yet, next,
}

-- The connections that have not been counted out.
abbrev pub still_open : List Bool → ℕ
still_open [] = 0
still_open (true ∷ bs) = still_open bs
still_open (false ∷ bs) = suc (still_open bs)

still_open-append : (bs : List Bool) → still_open (bs ++ (false ∷ [])) ≡ suc (still_open bs)
still_open-append [] = refl
still_open-append (true ∷ bs) = still_open-append bs
still_open-append (false ∷ bs) = ap suc (still_open-append bs)

is_some : {a b : Relay} → some a ≡ some b → a ≡ b
is_some e = cc

-- The first run counts one connection out, a later one none.
run_once-still_open :
    (n : ℕ) (bs : List Bool) (before : Bool) (cs : List Bool)
    → run_once n bs ≡ some (before, cs)
    → still_open bs ≡ (if before then 0 else 1) + still_open cs
unfolding run_once
run_once-still_open n [] before cs e = ground arith
run_once-still_open zero (true ∷ bs) before cs e = ground arith
run_once-still_open zero (false ∷ bs) before cs e = ground arith
run_once-still_open (suc n) (b ∷ bs) before cs e = elim (Option-cases (run_once n bs)) [
  | inl gone ↦ ground (arith, gone)
  | inr ((before', cs'), at) ↦ ground (arith, at, run_once-still_open n bs before' cs' at)
]

-- A run keeps the number of connections.
run_once-length :
    (n : ℕ) (bs : List Bool) (before : Bool) (cs : List Bool)
    → run_once n bs ≡ some (before, cs)
    → length cs ≡ length bs
unfolding run_once
run_once-length n [] before cs e = ground arith
run_once-length zero (true ∷ bs) before cs e = ground arith
run_once-length zero (false ∷ bs) before cs e = ground arith
run_once-length (suc n) (b ∷ bs) before cs e = elim (Option-cases (run_once n bs)) [
  | inl gone ↦ ground (arith, gone)
  | inr ((before', cs'), at) ↦ ground (arith, at, run_once-length n bs before' cs' at)
]

-- The counters of `q` against those of `r`, from which it has come.
pub record Counted (r q : Relay) : Type 0 where
  pub active :
      r.st.active_conn ≡ pos (still_open r.conns) → q.st.active_conn ≡ pos (still_open q.conns)
  pub total :
      (k : ℕ) × (length q.conns ≡ length r.conns + k)
      × (u64 q.st.total_conn ≡ u64 (r.st.total_conn + k))
  pub mode : q.zero_copy ≡ r.zero_copy
  pub bytes :
      r.zero_copy ≡ true → (q.st.bytes_in ≡ r.st.bytes_in) × (q.st.bytes_out ≡ r.st.bytes_out)

Counted-refl : (r : Relay) → Counted r r
Counted-refl r = record {
  active = λ v. v;
  total = (0, omega arith, omega arith);
  mode = refl;
  bytes = λ z. (refl, refl);
}

Counted-trans : (r q p : Relay) → Counted r q → Counted q p → Counted r p
Counted-trans r q p v w =
    let (k, a, b) = v.total in
    let (l, c, d) = w.total in
    record {
      active = λ x. w.active (v.active x);
      total = (k + l, omega arith, omega arith);
      mode = w.mode ∙ v.mode;
      bytes = λ z. let (e, f) = v.bytes z in let (g, h) = w.bytes (v.mode ∙ z) in (g ∙ e, h ∙ f);
    }

accept_conn-Counted : (r : Relay) → Counted r (accept_conn r)
unfolding accept_conn enter ◌+ℤ◌
accept_conn-Counted r = record {
  active = λ v. ground (arith, v, still_open-append r.conns);
  total = (1, length-append r.conns (false ∷ []), omega arith);
  mode = refl;
  bytes = λ z. (refl, refl);
}

counted_out-Counted :
    (n : ℕ) (r q : Relay) (before : Bool) (cs : List Bool)
    → run_once n r.conns ≡ some (before, cs)
    → counted_out (some (before, cs)) r ≡ some q
    → Counted r q
unfolding counted_out leave ◌+ℤ◌
counted_out-Counted n r q true cs at e = subst (Counted r) (is_some e) (record {
  active = λ v. ground (arith, v, run_once-still_open n r.conns true cs at);
  total = (0, omega (arith, run_once-length n r.conns true cs at), omega arith);
  mode = refl;
  bytes = λ z. (refl, refl);
})
counted_out-Counted n r q false cs at e = subst (Counted r) (is_some e) (record {
  active = λ v. ground (arith, v, run_once-still_open n r.conns false cs at);
  total = (0, omega (arith, run_once-length n r.conns false cs at), omega arith);
  mode = refl;
  bytes = λ z. (refl, refl);
})

close_conn-Counted : (n : ℕ) (r q : Relay) → close_conn n r ≡ some q → Counted r q
unfolding close_conn counted_out
close_conn-Counted n r q e = elim (Option-cases (run_once n r.conns)) [
  | inl gone ↦ ground (arith, gone)
  | inr ((before, cs), at) ↦ counted_out-Counted n r q before cs at (rw at at e)
]

bytes-Counted :
    (r : Relay) (received sent : ℕ)
    → r.zero_copy ≡ false
    → Counted r (record r { st = record (r.st) { bytes_in = received; bytes_out = sent } })
bytes-Counted r received sent z = record {
  active = λ v. v;
  total = (0, omega arith, omega arith);
  mode = refl;
  bytes = λ on. cc;
}

not_zero_copy : (r : Relay) → handed r.zero_copy ≡ counting → r.zero_copy ≡ false
unfolding handed
not_zero_copy r h = ground arith

read_conn-Counted : (n : ℤ) (r : Relay) → handed r.zero_copy ≡ counting → Counted r (read_conn n r)
unfolding read_conn
read_conn-Counted n r h = bytes-Counted r (count n r.st.bytes_in) r.st.bytes_out (not_zero_copy r h)

write_conn-Counted :
    (n : ℤ) (r : Relay) → handed r.zero_copy ≡ counting → Counted r (write_conn n r)
unfolding write_conn
write_conn-Counted n r h =
    bytes-Counted r r.st.bytes_in (count n r.st.bytes_out) (not_zero_copy r h)

dial_failed-Counted : (r : Relay) → Counted r (dial_failed r)
unfolding dial_failed
dial_failed-Counted r = record {
  active = λ v. v;
  total = (0, omega arith, omega arith);
  mode = refl;
  bytes = λ z. (refl, refl);
}

Step-Counted : (r q : Relay) → Step r q → Counted r q
Step-Counted r q (accepts _ e) = subst (Counted r) e (accept_conn-Counted r)
Step-Counted r q (closes n _ e) = close_conn-Counted n r q e
Step-Counted r q (reads n _ h e) = subst (Counted r) e (read_conn-Counted n r h)
Step-Counted r q (writes n _ h e) = subst (Counted r) e (write_conn-Counted n r h)
Step-Counted r q (passes n _ h e) = subst (Counted r) e (Counted-refl r)
Step-Counted r q (misses _ e) = subst (Counted r) e (dial_failed-Counted r)

-- After any steps of the goroutines of a relay in any order, also where a connection is closed twice: the
-- counter of active connections is the number of connections that are open, if it was before; the counter of
-- all connections has grown by the number of connections accepted, modulo 2^64; and in the mode of zero copy
-- the counters of bytes are as before.
pub Steps-Counted : (r q : Relay) → Steps r q → Counted r q
Steps-Counted r q (none_yet _ e) = subst (Counted r) e (Counted-refl r)
Steps-Counted r q (next p _ ps step) =
    Counted-trans r p q (Steps-Counted r p ps) (Step-Counted p q step)
