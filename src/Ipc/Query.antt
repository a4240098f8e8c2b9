-- ===== src/Ipc/Query.antt =====
-- server.go `handle` and client.go `QueryStatus`: the report goes over the socket as JSON.
pub mod Tests
use nas_conn_plus.Base.{
  ℕ, zero, suc, ◌+◌, ◌^◌, ◌≤◌, ◌<◌, length, length-append, Str, first_bytes, codes, ◌≡◌, ◌≢◌, refl,
  sym, ap, ◌∙◌, List, [], ◌∷◌, ◌++◌, Result, ok, err, arith,
}
use nas_conn_plus.Ipc.{StatusReport}

-- `encoding/json`: the text of a report, and the report that a `Decoder` reads from the front of a text.
pub record Json : Type 0 where
  pub marshal : StatusReport → Str
  pub decode : Str → Result Str StatusReport

-- What `Dial` on a path returns: an error, or what the connection yields until it ends.
pub record Wire : Type 0 where
  pub dial : Str → Result Str Str

pub data QueryError : Type 0 where
  no_daemon : (path why : Str) → QueryError
  bad_answer : Str → QueryError

-- `handle`: `Encode` puts a newline behind the text.
unfoldable pub handle : Json → StatusReport → Str
handle j report = j.marshal report ++ codes "\n"

abbrev pub max_answer : ℕ
max_answer = 2 ^ 20

decoded : Result Str StatusReport → Result QueryError StatusReport
decoded (ok report) = ok report
decoded (err e) = err (bad_answer e)

-- The answer is read through an `io.LimitReader`.
answered : Json → Str → Result Str Str → Result QueryError StatusReport
unfolding decoded first_bytes
answered j path (err e) = err (no_daemon path e)
answered j path (ok text) = decoded (j.decode (first_bytes max_answer text))

-- `QueryStatus`.
unfoldable pub query_status : Json → Wire → Str → Result QueryError StatusReport
unfolding answered
query_status j w path = answered j path (w.dial path)

-- What JSON does for a report whose texts are UTF-8 and whose numbers fit: the text of the object is read
-- back, whatever stands behind it, and it is not read from less.
pub record Carries (j : Json) (r : StatusReport) : Type 0 where
  pub whole : (rest : Str) → j.decode (j.marshal r ++ rest) ≡ ok r
  pub part :
      (text rest : Str)
      → j.marshal r ≡ text ++ rest
      → rest ≢ []
      → (e : Str) × (j.decode text ≡ err e)

first_bytes-split :
    (n : ℕ) (s t : Str)
    → n < length s
    → (rest : Str) × (s ≡ first_bytes n (s ++ t) ++ rest) × (rest ≢ [])
unfolding first_bytes
first_bytes-split n [] t h = absurd (omega arith)
first_bytes-split zero (c ∷ s) t h = (c ∷ s, refl, λ e. cc)
first_bytes-split (suc n) (c ∷ s) t h =
    let (rest, e, some_left) = first_bytes-split n s t (omega arith) in
    (rest, ap (◌∷◌ c) e, some_left)

first_bytes-append :
    (n : ℕ) (s t : Str) → length s ≤ n → (rest : Str) × (first_bytes n (s ++ t) ≡ s ++ rest)
unfolding first_bytes
first_bytes-append n [] t h = (first_bytes n t, refl)
first_bytes-append zero (c ∷ s) t h = absurd (omega arith)
first_bytes-append (suc n) (c ∷ s) t h =
    let (rest, e) = first_bytes-append n s t (omega arith) in (rest, ap (◌∷◌ c) e)

-- A status query that reaches the daemon gets the report that the daemon made, if its text has at most
-- 2^20 bytes, and otherwise an error, never another report.
pub query_status-handle :
    (j : Json) (w : Wire) (path : Str) (r : StatusReport)
    → Carries j r
    → w.dial path ≡ ok (handle j r)
    → (length (j.marshal r) ≤ max_answer → query_status j w path ≡ ok r)
      × (max_answer < length (j.marshal r)
          → (e : Str) × (query_status j w path ≡ err (bad_answer e)))
unfolding query_status answered decoded handle
query_status-handle j w path r v reached = (
  λ fits.
      let (rest, e) = first_bytes-append max_answer (j.marshal r) (codes "\n") fits in
      rw (reached, e, v.whole rest) refl,
  λ long.
      let (rest, e, some_left) = first_bytes-split max_answer (j.marshal r) (codes "\n") long in
      let (why, f) = v.part (first_bytes max_answer (j.marshal r ++ codes "\n")) rest e some_left in
      (why, rw (reached, f) refl),
)
