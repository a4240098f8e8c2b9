-- ===== src/Ipc/Query/Tests.antt =====
-- A report that travels as one byte.
use nas_conn_plus.Base.{
  codes, ◌≡◌, refl, ◌≢◌, ◌≤◌, ◌<◌, length, [], ◌∷◌, ◌++◌, Str, Result, ok, err, pos,
}
use nas_conn_plus.Ipc.{StatusReport}
use nas_conn_plus.Ipc.Query.{
  Json, Wire, handle, Carries, max_answer, query_status, bad_answer, query_status-handle,
}

abbrev report : StatusReport
report = record { version = codes "1.1.1"; uptime_seconds = pos 5; timestamp = 0; listeners = [] }

abbrev decode : Str → Result Str StatusReport
decode [] = err (codes "unexpected EOF")
decode (c ∷ s) = ok report

abbrev json : Json
json = record { marshal = λ r. codes "{"; decode = decode }

abbrev wire : Wire
wire = record { dial = λ path. ok (handle json report) }

no_part :
    (text rest : Str) → codes "{" ≡ text ++ rest → rest ≢ [] → (e : Str) × (decode text ≡ err e)
no_part [] rest e more = (codes "unexpected EOF", refl)
no_part (c ∷ []) rest e more = absurd (more cc)
no_part (c ∷ d ∷ text) rest e more = cc

carries : Carries json report
carries = record { whole = λ rest. refl; part = no_part }

query_status-handle_example :
    (length (json.marshal report) ≤ max_answer → query_status json wire [] ≡ ok report)
    × (max_answer < length (json.marshal report)
        → (e : Str) × (query_status json wire [] ≡ err (bad_answer e)))
query_status-handle_example = query_status-handle json wire [] report carries refl
