-- ===== src/Scanner/Report/Ports.antt =====
-- The rows of the report.
use nas_conn_plus.Base.{
  ℤ, ltb_ℤ, eqb_ℤ, eqb_ℤ_iff, int_eq, ◌<ℤ◌, ◌≡◌, refl, List, [], ◌∷◌, Bool, ◌||◌, mem, All, ap, sym,
  subst, Map, inl, inr, Bool-cases, arith,
}
use nas_conn_plus.Scanner.{ScanResult, Runtime}
use nas_conn_plus.Scanner.Prober.{Machine, probe_ports}
use nas_conn_plus.Scanner.Report.{
  DiagnosticOptions, ReportRow, insert_port, insert_ports, sorted_ports, report_row, report_rows,
  rows_for, to_probe, diagnostic_report,
}

mem-insert_port : (x p : ℤ) (ps : List ℤ) → mem x (insert_port p ps) ≡ (eqb_ℤ p x || mem x ps)
unfolding insert_port mem
mem-insert_port x p [] = ground arith
mem-insert_port x p (q ∷ qs) =
    ground (arith, mem-insert_port x p qs, eqb_ℤ_iff p q, eqb_ℤ_iff p x, eqb_ℤ_iff q x)

mem-insert_ports : (x : ℤ) (ps out : List ℤ) → mem x (insert_ports ps out) ≡ (mem x ps || mem x out)
unfolding insert_ports mem
mem-insert_ports x [] out = refl
mem-insert_ports x (p ∷ ps) out =
    ground (arith, mem-insert_ports x ps (insert_port p out), mem-insert_port x p out)

-- Each port is below those that follow.
abbrev pub Ascends : List ℤ → Type 0
Ascends [] = Unit {0}
Ascends (p ∷ ps) = All (λ q. p <ℤ q) ps × Ascends ps

All-insert_port :
    (l p : ℤ) (ps : List ℤ) → l <ℤ p → All (λ q. l <ℤ q) ps → All (λ q. l <ℤ q) (insert_port p ps)
unfolding insert_port
All-insert_port l p [] h v = (h, tt)
All-insert_port l p (q ∷ qs) h (here, v) = ground (arith, h, here, v, All-insert_port l p qs h v)

All-below : (l p : ℤ) (ps : List ℤ) → l <ℤ p → All (λ q. p <ℤ q) ps → All (λ q. l <ℤ q) ps
All-below l p [] h v = tt
All-below l p (q ∷ qs) h (here, v) = (omega (arith, h, here), All-below l p qs h v)

insert_port-Ascends : (p : ℤ) (ps : List ℤ) → Ascends ps → Ascends (insert_port p ps)
unfolding insert_port
insert_port-Ascends p [] v = (tt, tt)
insert_port-Ascends p (q ∷ qs) (first, v) = elim (Bool-cases (eqb_ℤ p q)) [
  | inl same ↦ simp same (first, v)
  | inr differs ↦ elim (Bool-cases (ltb_ℤ p q)) [
    | inl before ↦
        let h : p <ℤ q = ground (arith, before) in
        simp (differs, before) ((h, All-below p q qs h first), (first, v))
    | inr after ↦
        let h : q <ℤ p = ground (arith, after, differs, eqb_ℤ_iff p q) in
        simp (differs, after) (All-insert_port q p qs h first, insert_port-Ascends p qs v)
  ]
]

insert_ports-Ascends : (ps out : List ℤ) → Ascends out → Ascends (insert_ports ps out)
unfolding insert_ports
insert_ports-Ascends [] out v = v
insert_ports-Ascends (p ∷ ps) out v =
    insert_ports-Ascends ps (insert_port p out) (insert_port-Ascends p out v)

abbrev pub ports_of : List ReportRow → List ℤ
ports_of [] = []
ports_of (row ∷ rows) = row.port ∷ ports_of rows

ports_of-report_rows :
    (r : ScanResult) (opts : DiagnosticOptions) (answers : Map ℤ Bool) (ps : List ℤ)
    → ports_of (report_rows r opts answers ps) ≡ ps
unfolding report_rows report_row
ports_of-report_rows r opts answers [] = refl
ports_of-report_rows r opts answers (p ∷ ps) =
    ap (λ rest. p ∷ rest) (ports_of-report_rows r opts answers ps)

ports_of-rows_for :
    (r : ScanResult) (opts : DiagnosticOptions) (o : Machine) (rt : Runtime) (ps : List ℤ)
    → ports_of (rows_for r opts o rt ps).0 ≡ ps
unfolding rows_for
ports_of-rows_for r opts o rt [] = refl
ports_of-rows_for r opts o rt (p ∷ ps) =
    ports_of-report_rows r opts (probe_ports o (to_probe r opts (p ∷ ps)) rt).0 (p ∷ ps)

-- The report has a row for every port that listens on a wildcard address of IPv4 or IPv6 and for no other, in
-- ascending order, so none twice: whatever is excluded and whatever the probes answer.
pub diagnostic_report-ports :
    (r : ScanResult) (opts : DiagnosticOptions) (o : Machine) (rt : Runtime) (p : ℤ)
    → let ports = ports_of (diagnostic_report r opts o rt).0 in
      Ascends ports × (mem p ports ≡ (mem p r.v4_wild || mem p r.v6_any))
unfolding diagnostic_report sorted_ports mem
diagnostic_report-ports r opts o rt p =
    subst (λ ports. Ascends ports × (mem p ports ≡ (mem p r.v4_wild || mem p r.v6_any)))
      (sym (ports_of-rows_for r opts o rt (sorted_ports r)))
      (
        insert_ports-Ascends r.v6_any (insert_ports r.v4_wild [])
            (insert_ports-Ascends r.v4_wild [] tt),
        ground (
          arith,
          mem-insert_ports p r.v6_any (insert_ports r.v4_wild []),
          mem-insert_ports p r.v4_wild [],
        ),
      )
