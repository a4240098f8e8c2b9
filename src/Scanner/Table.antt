-- ===== src/Scanner/Table.antt =====
-- scanner.go: what a table of sockets says, in each of the three formats that the program reads.
pub mod Tools
pub mod Sound
pub mod Foreign
pub mod Output
pub mod Tests
use nas_conn_plus.Base.{
  ℕ, zero, suc, ◌+◌, ◌-◌, ◌*◌, ◌^◌, ℤ, pos, leb_ℤ, ltb_ℤ, eqb_ℤ, int_eq, ltb, leb, Str, codes,
  str_beq, str_eq, contains, split, fields, atoi, List, [], ◌∷◌, Option, none, some, Bool, true,
  false, not, ◌&&◌, ◌||◌, ◌==◌, Map, get, put, mem, if◌then◌else◌, Result, ok, err, ◌>>=◌,
}
use nas_conn_plus.Scanner.{ScanResult, new_result}

-- `m[port] = true`.
unfoldable pub add_port : ℤ → List ℤ → List ℤ
unfolding mem
add_port p ps = if mem p ps then ps else p ∷ ps

abbrev see_v4 : ℤ → ScanResult → ScanResult
see_v4 p r = record r { v4_wild = add_port p r.v4_wild }

-- A listener on the IPv6 wildcard address, of this process or of another.
abbrev see_v6 : Bool → ℤ → ScanResult → ScanResult
see_v6 ours p r = record r {
  v6_any = add_port p r.v6_any;
  v6_others = if ours then r.v6_others else add_port p r.v6_others;
}

abbrev name_owner : ℤ → ℤ → Str → ScanResult → ScanResult
name_owner p pid name r = record r { pids = put p pid r.pids; names = put p name r.names }

pub record ProcInfo : Type 0 where
  pub pid : ℤ
  pub name : Str

-- A socket that listens: its address, port and inode.
pub record Socket : Type 0 where
  pub address : Str
  pub port : ℤ
  pub inode : Str

abbrev nth : ℕ → List Str → Option Str
nth n [] = none
nth zero (s ∷ ss) = some s
nth (suc n) (s ∷ ss) = nth n ss

hex_digit : ℕ → Option ℕ
hex_digit c =
    if leb b'0' c && leb c b'9'
    then some (c - b'0')
    else if leb b'a' c && leb c b'f'
    then some (c - b'a' + 10)
    else if leb b'A' c && leb c b'F'
    then some (c - b'A' + 10)
    else none

read_hex : Str → ℕ → Option ℕ
unfolding hex_digit
read_hex [] n = some n
read_hex (c ∷ s) n = elim (hex_digit c) [ none ↦ none | some d ↦ read_hex s (n * 16 + d) ]

below_2_32 : Option ℕ → Option ℕ
below_2_32 none = none
below_2_32 (some n) = if ltb n (2 ^ 32) then some n else none

-- `strconv.ParseUint(s, 16, 32)`.
unfoldable pub parse_hex : Str → Option ℕ
unfolding read_hex below_2_32
parse_hex [] = none
parse_hex (c ∷ s) = below_2_32 (read_hex (c ∷ s) 0)

-- `err != nil || port <= 0 || port > 65535`.
unfoldable pub valid_port : Option ℤ → Option ℤ
valid_port none = none
valid_port (some p) = if leb_ℤ p (pos 0) || ltb_ℤ (pos 65535) p then none else some p

abbrev to_int : Option ℕ → Option ℤ
to_int none = none
to_int (some n) = some (pos n)

upper : ℕ → ℕ
upper c = if leb b'a' c && leb c b'z' then c - 32 else c

-- `strings.ToUpper` on ASCII letters.
unfoldable pub to_upper : Str → Str
unfolding upper
to_upper [] = []
to_upper (c ∷ s) = upper c ∷ to_upper s

-- The address and the port of a local address, which has one colon.
unfoldable pub read_local : Str → List Str → Option Socket
unfolding parse_hex to_upper
read_local inode (address ∷ port_hex ∷ []) = elim (valid_port (to_int (parse_hex port_hex))) [
  | none ↦ none
  | some p ↦ some (record { address = to_upper address; port = p; inode = inode })
]
read_local inode _ = none

-- The columns 1, 3 and 9; a line without column 9 is too short.
unfoldable pub read_columns : Option Str → Option Str → Option Str → Option Socket
unfolding str_beq split
read_columns (some local) (some state) (some inode) =
    if str_beq state (codes "0A") then read_local inode (split b':' local) else none
read_columns _ _ _ = none

-- A line of /proc/net/tcp.
unfoldable pub read_line : Str → Option Socket
unfolding fields
read_line line =
    let columns = fields line in read_columns (nth 1 columns) (nth 3 columns) (nth 9 columns)

abbrev pub v4_zero : Str
v4_zero = codes "00000000"

abbrev pub v6_zero : Str
v6_zero = codes "00000000000000000000000000000000"

abbrev pub mapped_zero : Str
mapped_zero = codes "00000000000000000000FFFF00000000"

-- A parse in progress: the result, and the caller's `missingInodes`, if it gives one.
pub record Parse : Type 0 where
  pub result : ScanResult
  pub missing : Option Bool

module _ (is_v6 : Bool) (my_pid : ℤ) (self_inodes : List Str) (lookup : Str → Option ProcInfo) where
  -- Who owns the socket.
  unfoldable pub own : Socket → Parse → Parse
  unfolding mem put
  own k q =
      if mem k.inode self_inodes
      then record q { result = name_owner k.port my_pid (codes "nasconnplus") q.result }
      else (elim (lookup k.inode) [
        | some info ↦ record q { result = name_owner k.port info.pid info.name q.result }
        | none ↦ record q { missing = elim q.missing [ none ↦ none | some _ ↦ some true ] }
      ])

  -- Which of the three sets the address puts the port into.
  unfoldable pub classify : Socket → ScanResult → ScanResult
  unfolding str_beq
  classify k r =
      if not is_v6
      then (if str_beq k.address v4_zero then see_v4 k.port r else r)
      else if str_beq k.address v6_zero
      then see_v6 (mem k.inode self_inodes) k.port r
      else if str_beq k.address mapped_zero
      then see_v4 k.port r
      else r

  unfoldable pub add_socket : Socket → Parse → Parse
  add_socket k q = let q' = own k q in record q' { result = classify k q'.result }

  unfoldable pub add_lines : List Str → Parse → Parse
  add_lines [] q = q
  add_lines (line ∷ lines) q = elim (read_line line) [
    | none ↦ add_lines lines q
    | some k ↦ add_lines lines (add_socket k q)
  ]

-- A file as it is opened and scanned by lines: `broken` is the error of the scanner after the lines.
pub data Table : Type 0 where
  absent : Table
  unreadable : Str → Table
  opened : (lines : List Str) → (broken : Option Str) → Table

-- `sc.Err()`.
abbrev ended : Option Str → Parse → Result Str Parse
ended none q = ok q
ended (some e) q = err e

-- `parseProcNetFileInner`: the first line is a header.
unfoldable pub parse_proc_net :
    Bool → ℤ → List Str → (Str → Option ProcInfo) → Table → Parse → Result Str Parse
parse_proc_net is_v6 my_pid self_inodes lookup absent q =
    if is_v6 then ok q else err (codes "file does not exist")
parse_proc_net is_v6 my_pid self_inodes lookup (unreadable e) q = err e
parse_proc_net is_v6 my_pid self_inodes lookup (opened [] broken) q = ended broken q
parse_proc_net is_v6 my_pid self_inodes lookup (opened (header ∷ lines) broken) q =
    ended broken (add_lines is_v6 my_pid self_inodes lookup lines q)

unfoldable pub parse_both :
    ℤ → List Str → (Str → Option ProcInfo) → Table × Table → Option Bool → Result Str Parse
parse_both my_pid self_inodes lookup (tcp, tcp6) missing =
    parse_proc_net false my_pid self_inodes lookup tcp
      (record { result = new_result; missing = missing })
    >>= λ q. parse_proc_net true my_pid self_inodes lookup tcp6 q

-- Whether the first pass asks for the owners to be read again.
abbrev pub asks_again : Option Bool → Bool
asks_again none = false
asks_again (some missing) = missing

-- `scanProcFSWith`: the files are read once per pass. `may_refresh` is the answer of
-- `shouldRefreshInodes`, `cached` and `refreshed` are the two tables of owners.
unfoldable pub scan_proc_fs :
    ℤ
    → List Str
    → (Str → Option ProcInfo)
    → (Str → Option ProcInfo)
    → Bool
    → Table × Table
    → Table × Table
    → Result Str ScanResult
scan_proc_fs my_pid self_inodes cached refreshed may_refresh first second =
    parse_both my_pid self_inodes cached first (some false) >>= λ q.
    if asks_again q.missing && may_refresh
    then (parse_both my_pid self_inodes refreshed second none >>= λ q'. ok q'.result)
    else ok q.result
