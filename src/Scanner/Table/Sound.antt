-- ===== src/Scanner/Table/Sound.antt =====
-- Whatever a table says, the result of a scan is in order.
use nas_conn_plus.Base.{
  ℤ, pos, ◌≤ℤ◌, eqb_ℤ, eqb_ℤ_iff, int_eq, Str, str_eq, ◌≡◌, sym, ap, subst, ◌∙◌, inl, inr, List, [],
  ◌∷◌, Option, none, some, Bool, true, false, not, ◌&&◌, ◌||◌, mem, ok, if◌then◌else◌, Option-cases,
  Bool-cases, Result-cases, arith, split, str_beq,
}
use nas_conn_plus.Scanner.{ScanResult, new_result}
use nas_conn_plus.Scanner.Table.{
  add_port, see_v4, see_v6, to_int, parse_hex, read_local, read_columns, valid_port, ProcInfo,
  Socket, Parse, read_line, classify, own, add_socket, add_lines, Table, opened, absent, unreadable,
  parse_proc_net, parse_both, scan_proc_fs, v6_zero, v4_zero, mapped_zero, asks_again,
}

abbrev pub IsPort : ℤ → Type 0
IsPort p = (pos 1 ≤ℤ p) × (p ≤ℤ pos 65535)

abbrev pub Ports : List ℤ → Type 0
Ports ps = (p : ℤ) → mem p ps ≡ true → IsPort p

-- Only ports, each once in a set, and a foreign IPv6 listener is an IPv6 listener.
pub record IsScan (r : ScanResult) : Type 0 where
  pub v4 : Ports r.v4_wild
  pub v6 : Ports r.v6_any
  pub foreign : (p : ℤ) → mem p r.v6_others ≡ true → mem p r.v6_any ≡ true

pub mem-add_port : (q p : ℤ) (ps : List ℤ) → mem q (add_port p ps) ≡ (mem q ps || eqb_ℤ p q)
unfolding add_port mem
mem-add_port q p ps = ground (arith, eqb_ℤ_iff p q)

pub valid_port-IsPort : (o : Option ℤ) (p : ℤ) → valid_port o ≡ some p → IsPort p
unfolding valid_port
valid_port-IsPort none p e = ground arith
valid_port-IsPort (some q) p e = ground arith

pub see_v4-IsScan : (p : ℤ) (r : ScanResult) → IsPort p → IsScan r → IsScan (see_v4 p r)
see_v4-IsScan p r port v = record {
  v4 = λ q m. ground (arith, mem-add_port q p r.v4_wild, v.v4 q, eqb_ℤ_iff p q);
  v6 = v.v6;
  foreign = v.foreign;
}

pub see_v6-IsScan :
    (ours : Bool) (p : ℤ) (r : ScanResult) → IsPort p → IsScan r → IsScan (see_v6 ours p r)
see_v6-IsScan ours p r port v = record {
  v4 = v.v4;
  v6 = λ q m. ground (arith, mem-add_port q p r.v6_any, v.v6 q, eqb_ℤ_iff p q);
  foreign =
      λ q m. ground (arith, mem-add_port q p r.v6_any, mem-add_port q p r.v6_others, v.foreign q);
}

-- The owners of ports are no part of it.
abbrev pub Sets : ScanResult → ScanResult → Type 0
Sets r s = (s.v4_wild ≡ r.v4_wild) × (s.v6_any ≡ r.v6_any) × (s.v6_others ≡ r.v6_others)

pub Sets-IsScan : (r s : ScanResult) → Sets r s → IsScan r → IsScan s
Sets-IsScan r s (a, b, c) v = record {
  v4 = λ q m. v.v4 q (ap (mem q) (sym a) ∙ m);
  v6 = λ q m. v.v6 q (ap (mem q) (sym b) ∙ m);
  foreign = λ q m. ap (mem q) b ∙ v.foreign q (ap (mem q) (sym c) ∙ m);
}

pub IsScan-if : (b : Bool) (r s : ScanResult) → IsScan r → IsScan s → IsScan (if b then r else s)
IsScan-if true r s v w = v
IsScan-if false r s v w = w

pub new_result-IsScan : IsScan new_result
unfolding new_result mem
new_result-IsScan = record {
  v4 = λ q m. ground arith;
  v6 = λ q m. ground arith;
  foreign = λ q m. ground arith;
}

read_local-IsPort :
    (inode : Str) (parts : List Str) (k : Socket) → read_local inode parts ≡ some k → IsPort k.port
unfolding read_local
read_local-IsPort inode [] k e = ground arith
read_local-IsPort inode (a ∷ []) k e = ground arith
read_local-IsPort inode (a ∷ b ∷ []) k e = elim (Option-cases (valid_port (to_int (parse_hex b)))) [
  | inl bad ↦ ground (arith, bad)
  | inr (p, at) ↦ ground (arith, at, valid_port-IsPort (to_int (parse_hex b)) p at)
]
read_local-IsPort inode (a ∷ b ∷ c ∷ ps) k e = ground arith

read_columns-IsPort :
    (a b c : Option Str) (k : Socket) → read_columns a b c ≡ some k → IsPort k.port
unfolding read_columns
read_columns-IsPort none b c k e = ground arith
read_columns-IsPort (some a) none c k e = ground arith
read_columns-IsPort (some a) (some b) none k e = ground arith
read_columns-IsPort (some a) (some b) (some c) k e =
    read_local-IsPort c (split b':' a) k (ground arith)

read_line-IsPort : (line : Str) (k : Socket) → read_line line ≡ some k → IsPort k.port
unfolding read_line
read_line-IsPort line k e = read_columns-IsPort _ _ _ k e

module _ (is_v6 : Bool) (my_pid : ℤ) (self_inodes : List Str) (lookup : Str → Option ProcInfo) where
  pub own-Sets :
      (k : Socket) (q : Parse) → Sets q.result (own is_v6 my_pid self_inodes lookup k q).result
  unfolding own
  own-Sets k q = ground arith

  classify-IsScan :
      (k : Socket) (r : ScanResult)
      → IsPort k.port
      → IsScan r
      → IsScan (classify is_v6 my_pid self_inodes lookup k r)
  unfolding classify
  classify-IsScan k r port v =
      IsScan-if (not is_v6) _ _
        (IsScan-if (str_beq k.address v4_zero) _ r (see_v4-IsScan k.port r port v) v)
        (IsScan-if (str_beq k.address v6_zero) _ _
          (see_v6-IsScan (mem k.inode self_inodes) k.port r port v)
          (IsScan-if (str_beq k.address mapped_zero) _ r (see_v4-IsScan k.port r port v) v))

  add_lines-IsScan :
      (lines : List Str) (q : Parse)
      → IsScan q.result
      → IsScan (add_lines is_v6 my_pid self_inodes lookup lines q).result
  unfolding add_lines add_socket
  add_lines-IsScan [] q v = v
  add_lines-IsScan (line ∷ lines) q v = elim (Option-cases (read_line line)) [
    | inl bad ↦ rw (bad, add_lines) (add_lines-IsScan lines q v)
    | inr (k, at) ↦
        let q' = own is_v6 my_pid self_inodes lookup k q in
        rw (at, add_lines)
          (add_lines-IsScan lines (add_socket is_v6 my_pid self_inodes lookup k q) (
            classify-IsScan k q'.result (read_line-IsPort line k at)
              (Sets-IsScan q.result q'.result (own-Sets k q) v)))
  ]

  parse_proc_net-IsScan :
      (t : Table) (q q' : Parse)
      → IsScan q.result
      → parse_proc_net is_v6 my_pid self_inodes lookup t q ≡ ok q'
      → IsScan q'.result
  unfolding parse_proc_net
  parse_proc_net-IsScan absent q q' v e = elim (Bool-cases is_v6) [
    | inl on ↦ subst (λ (x : Parse). IsScan x.result) {x = q} {y = q'} (ground (arith, on)) v
    | inr off ↦ ground (arith, off)
  ]
  parse_proc_net-IsScan (unreadable m) q q' v e = cc
  parse_proc_net-IsScan (opened [] none) q q' v e =
      subst (λ (x : Parse). IsScan x.result) {x = q} {y = q'} (ground arith) v
  parse_proc_net-IsScan (opened [] (some m)) q q' v e = cc
  parse_proc_net-IsScan (opened (h ∷ lines) none) q q' v e =
      subst (λ (x : Parse). IsScan x.result) {x = add_lines is_v6 my_pid self_inodes lookup lines q}
        {y = q'} (ground arith) (add_lines-IsScan lines q v)
  parse_proc_net-IsScan (opened (h ∷ lines) (some m)) q q' v e = cc

parse_both-IsScan :
    (my_pid : ℤ) (self_inodes : List Str) (lookup : Str → Option ProcInfo) (files : Table × Table)
    (missing : Option Bool) (q : Parse)
    → parse_both my_pid self_inodes lookup files missing ≡ ok q
    → IsScan q.result
unfolding parse_both
parse_both-IsScan my_pid self_inodes lookup (tcp, tcp6) missing q e =
    let start : Parse = record { result = new_result; missing = missing } in
    elim (Result-cases (parse_proc_net false my_pid self_inodes lookup tcp start)) [
      | inr (m, f) ↦ ground (arith, f)
      | inl (q', f) ↦
          parse_proc_net-IsScan true my_pid self_inodes lookup tcp6 q' q
            (parse_proc_net-IsScan false my_pid self_inodes lookup tcp start q' new_result-IsScan f)
            (ground (arith, f))
    ]

-- A scan of procfs that succeeds, with the owners read again or not, holds ports from 1 to 65535 only,
-- and every port of a foreign IPv6 listener among those of the IPv6 listeners.
pub scan_proc_fs-IsScan :
    (my_pid : ℤ) (self_inodes : List Str) (cached refreshed : Str → Option ProcInfo)
    (may_refresh : Bool) (first second : Table × Table) (r : ScanResult)
    → scan_proc_fs my_pid self_inodes cached refreshed may_refresh first second ≡ ok r
    → IsScan r
unfolding scan_proc_fs
scan_proc_fs-IsScan my_pid self_inodes cached refreshed may_refresh first second r e =
    elim (Result-cases (parse_both my_pid self_inodes cached first (some false))) [
      | inr (m, f) ↦ ground (arith, f)
      | inl (q, f) ↦ elim (Result-cases (parse_both my_pid self_inodes refreshed second none)) [
        | inr (m, g) ↦
            subst IsScan (ground (arith, f, g))
              (parse_both-IsScan my_pid self_inodes cached first (some false) q f)
        | inl (q', g) ↦
            let (v, w) : IsScan q.result × IsScan q'.result = (
              parse_both-IsScan my_pid self_inodes cached first (some false) q f,
              parse_both-IsScan my_pid self_inodes refreshed second none q' g,
            ) in
            subst IsScan {x = if asks_again q.missing && may_refresh then q'.result else q.result}
              (ground (arith, f, g))
              (IsScan-if (asks_again q.missing && may_refresh) q'.result q.result w v)
      ]
    ]
