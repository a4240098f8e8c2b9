-- ===== src/Scanner/Table/Output.antt =====
-- The results of `ss` and of `lsof` are in order whatever the tool prints.
use nas_conn_plus.Base.{
  ℤ, Str, eqb_ℤ, str_beq, split, ◌≡◌, refl, inl, inr, List, [], ◌∷◌, Option, none, some, ◌&&◌, ◌||◌,
  if◌then◌else◌, codes, Option-cases, arith, atoi, fields,
}
use nas_conn_plus.Scanner.{ScanResult, new_result}
use nas_conn_plus.Scanner.Table.{see_v4, name_owner, valid_port, nth}
use nas_conn_plus.Scanner.Table.Tools.{
  cut_last, read_address, local_column, ss_entry, ss_pid, ss_owner, ss_classify, add_ss_line,
  add_ss_lines, parse_ss_output, LsofLine, lsof_columns, lsof_entry, lsof_classify, add_lsof_line,
  add_lsof_lines, parse_lsof_output,
}
use nas_conn_plus.Scanner.Table.Sound.{
  IsPort, IsScan, Sets, Sets-IsScan, IsScan-if, new_result-IsScan, valid_port-IsPort, see_v4-IsScan,
  see_v6-IsScan,
}

read_address-IsPort : (s a : Str) (p : ℤ) → read_address s ≡ some (a, p) → IsPort p
unfolding read_address
read_address-IsPort s a p e = elim (Option-cases (cut_last b':' s)) [
  | inl bad ↦ ground (arith, bad)
  | inr ((before, behind), at) ↦ elim (Option-cases (valid_port (atoi behind))) [
    | inl bad ↦ ground (arith, at, bad)
    | inr (q, there) ↦ ground (arith, at, there, valid_port-IsPort (atoi behind) q there)
  ]
]

ss_entry-IsPort : (line a : Str) (p : ℤ) → ss_entry line ≡ some (a, p) → IsPort p
unfolding ss_entry
ss_entry-IsPort line a p e = elim (Option-cases (local_column (fields line))) [
  | inl bad ↦ ground (arith, bad)
  | inr (l, at) ↦ read_address-IsPort l a p (ground (arith, at))
]

ss_owner-Sets : (line : Str) (p : ℤ) (r : ScanResult) → Sets r (ss_owner line p r)
unfolding ss_owner
ss_owner-Sets line p r = ground arith

ss_classify-IsScan :
    (my_pid pid : ℤ) (a : Str) (p : ℤ) (r : ScanResult)
    → IsPort p
    → IsScan r
    → IsScan (ss_classify my_pid pid a p r)
unfolding ss_classify
ss_classify-IsScan my_pid pid a p r port v =
    IsScan-if (str_beq a (codes "0.0.0.0")) _ _ (see_v4-IsScan p r port v) (
      IsScan-if (str_beq a (codes "*") || str_beq a (codes "[::]")) _ r
        (see_v6-IsScan (eqb_ℤ pid my_pid) p r port v) v)

add_ss_lines-IsScan :
    (my_pid : ℤ) (lines : List Str) (r : ScanResult)
    → IsScan r
    → IsScan (add_ss_lines my_pid lines r)
unfolding add_ss_lines add_ss_line
add_ss_lines-IsScan my_pid [] r v = v
add_ss_lines-IsScan my_pid (line ∷ lines) r v =
    add_ss_lines-IsScan my_pid lines (add_ss_line my_pid line r)
      (elim (Option-cases (ss_entry line)) [
        | inl bad ↦ rw (bad, add_ss_line) v
        | inr ((a, p), at) ↦
            let port = ss_entry-IsPort line a p at in
            let named = Sets-IsScan r (ss_owner line p r) (ss_owner-Sets line p r) v in
            rw (at, add_ss_line)
              (ss_classify-IsScan my_pid (ss_pid line) a p (ss_owner line p r) port named)
      ])

lsof_columns-IsPort :
    (a b c d : Option Str) (l : LsofLine) → lsof_columns a b c d ≡ some l → IsPort l.port
unfolding lsof_columns
lsof_columns-IsPort none b c d l e = ground arith
lsof_columns-IsPort (some a) none c d l e = ground arith
lsof_columns-IsPort (some a) (some b) none d l e = ground arith
lsof_columns-IsPort (some a) (some b) (some c) none l e = ground arith
lsof_columns-IsPort (some a) (some b) (some c) (some d) l e = elim (Option-cases (read_address d)) [
  | inl bad ↦ ground (arith, bad)
  | inr ((address, p), at) ↦ ground (arith, at, read_address-IsPort d address p at)
]

lsof_entry-IsPort : (line : Str) (l : LsofLine) → lsof_entry line ≡ some l → IsPort l.port
unfolding lsof_entry
lsof_entry-IsPort line l e =
    let columns = fields line in
    lsof_columns-IsPort (nth 0 columns) (nth 1 columns) (nth 4 columns) (nth 8 columns) l
      (ground arith)

lsof_classify-IsScan :
    (my_pid : ℤ) (l : LsofLine) (r : ScanResult)
    → IsPort l.port
    → IsScan r
    → IsScan (lsof_classify my_pid l r)
unfolding lsof_classify
lsof_classify-IsScan my_pid l r port v =
    let any = str_beq l.address (codes "*") in
    let v4 = (any || str_beq l.address (codes "0.0.0.0")) && str_beq l.ip_type (codes "IPv4") in
    let r' : ScanResult = if v4 then see_v4 l.port r else r in
    let w : IsScan r' = IsScan-if v4 _ r (see_v4-IsScan l.port r port v) v in
    IsScan-if ((any || str_beq l.address (codes "[::]")) && str_beq l.ip_type (codes "IPv6")) _ r'
      (see_v6-IsScan (eqb_ℤ l.pid my_pid) l.port r' port w) w

add_lsof_lines-IsScan :
    (my_pid : ℤ) (lines : List Str) (r : ScanResult)
    → IsScan r
    → IsScan (add_lsof_lines my_pid lines r)
unfolding add_lsof_lines add_lsof_line
add_lsof_lines-IsScan my_pid [] r v = v
add_lsof_lines-IsScan my_pid (line ∷ lines) r v =
    add_lsof_lines-IsScan my_pid lines (add_lsof_line my_pid line r)
      (elim (Option-cases (lsof_entry line)) [
        | inl bad ↦ rw (bad, add_lsof_line) v
        | inr (l, at) ↦
            let named = name_owner l.port l.pid l.command r in
            rw (at, add_lsof_line)
              (lsof_classify-IsScan my_pid l named (lsof_entry-IsPort line l at)
                (Sets-IsScan r named (refl, refl, refl) v))
      ])

-- Whatever text `ss` or `lsof` prints, the result holds ports from 1 to 65535 only, and every port of a
-- foreign IPv6 listener among those of the IPv6 listeners.
pub parse_output-IsScan :
    (out : Str) (my_pid : ℤ)
    → IsScan (parse_ss_output out my_pid) × IsScan (parse_lsof_output out my_pid)
unfolding parse_ss_output parse_lsof_output
parse_output-IsScan out my_pid = (
  add_ss_lines-IsScan my_pid (split 10 out) new_result new_result-IsScan,
  add_lsof_lines-IsScan my_pid (split 10 out) new_result new_result-IsScan,
)
