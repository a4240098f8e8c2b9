-- ===== src/Scanner/Table/Tools.antt =====
-- scanner.go: the output of `ss -tlnp` and of `lsof -iTCP -sTCP:LISTEN -n -P`.
use nas_conn_plus.Base.{
  ℕ, ℤ, pos, eqb_ℤ, int_eq, leb, length, Str, codes, str_beq, contains, split, fields, atoi,
  atoi_value, List, [], ◌∷◌, Option, none, some, ◌&&◌, ◌||◌, ◌==◌, put, if◌then◌else◌,
}
use nas_conn_plus.Scanner.{ScanResult, new_result}
use nas_conn_plus.Scanner.Table.{see_v4, see_v6, name_owner, nth, valid_port}

-- `strings.LastIndex`, and the text before and behind it.
unfoldable pub cut_last : ℕ → Str → Option (Str × Str)
cut_last sep [] = none
cut_last sep (c ∷ s) = elim (cut_last sep s) [
  | some (before, behind) ↦ some (c ∷ before, behind)
  | none ↦ if c == sep then some ([], s) else none
]

-- The port behind the last colon, and what stands before it.
unfoldable pub read_address : Str → Option (Str × ℤ)
unfolding cut_last valid_port atoi
read_address local = elim (cut_last b':' local) [
  | none ↦ none
  | some (address, port) ↦ elim (valid_port (atoi port)) [
    | none ↦ none
    | some p ↦ some (address, p)
  ]
]

leading_digits : Str → Str
leading_digits [] = []
leading_digits (c ∷ s) =
    let rest = leading_digits s in if leb b'0' c && leb c b'9' then c ∷ rest else []

abbrev some_text : Str → Option Str
some_text [] = none
some_text (c ∷ s) = some (c ∷ s)

abbrev or_else : Option Str → Option Str → Option Str
or_else none o = o
or_else (some s) o = some s

drop_pid : Str → Option Str
drop_pid (p ∷ i ∷ d ∷ e ∷ s) =
    if p == b'p' && (i == b'i' && (d == b'd' && e == b'=')) then some s else none
drop_pid _ = none

pid_here : Option Str → Option Str
unfolding leading_digits
pid_here none = none
pid_here (some s) = some_text (leading_digits s)

-- The leftmost match of `pid=(\d+)`.
unfoldable pub find_pid : Str → Option Str
unfolding drop_pid pid_here
find_pid [] = none
find_pid (c ∷ s) = or_else (pid_here (drop_pid (c ∷ s))) (find_pid s)

-- The text up to the next quote, if there is one.
to_quote : Str → Option Str
to_quote [] = none
to_quote (c ∷ s) =
    if c == b'"' then some [] else (elim (to_quote s) [ none ↦ none | some q ↦ some (c ∷ q) ])

quoted_here : Option Str → Option Str
quoted_here none = none
quoted_here (some q) = some_text q

-- The leftmost match of `"([^"]+)"`.
unfoldable pub find_name : Str → Option Str
unfolding to_quote quoted_here
find_name [] = none
find_name (c ∷ s) = or_else (if c == b'"' then quoted_here (to_quote s) else none) (find_name s)

-- The fields from the first LISTEN on.
from_listen : List Str → List Str
unfolding str_beq
from_listen [] = []
from_listen (f ∷ fs) = if str_beq f (codes "LISTEN") then f ∷ fs else from_listen fs

-- The local address stands three columns behind the state.
unfoldable pub local_column : List Str → Option Str
unfolding from_listen
local_column columns = if leb 4 (length columns) then nth 3 (from_listen columns) else none

unfoldable pub ss_entry : Str → Option (Str × ℤ)
unfolding local_column fields
ss_entry line = elim (local_column (fields line)) [ none ↦ none | some l ↦ read_address l ]

-- The pid of a line, which is 0 if there is none.
unfoldable pub ss_pid : Str → ℤ
unfolding find_pid atoi_value
ss_pid line = elim (find_pid line) [ none ↦ pos 0 | some digits ↦ atoi_value digits ]

unfoldable pub ss_owner : Str → ℤ → ScanResult → ScanResult
unfolding put
ss_owner line p r =
    let r' : ScanResult = elim (find_pid line) [
      | none ↦ r
      | some _ ↦ record r { pids = put p (ss_pid line) r.pids }
    ] in
    elim (find_name line) [ none ↦ r' | some name ↦ record r' { names = put p name r'.names } ]

unfoldable pub ss_classify : ℤ → ℤ → Str → ℤ → ScanResult → ScanResult
unfolding str_beq
ss_classify my_pid pid address p r =
    if str_beq address (codes "0.0.0.0")
    then see_v4 p r
    else if str_beq address (codes "*") || str_beq address (codes "[::]")
    then see_v6 (eqb_ℤ pid my_pid) p r
    else r

unfoldable pub add_ss_line : ℤ → Str → ScanResult → ScanResult
add_ss_line my_pid line r = elim (ss_entry line) [
  | none ↦ r
  | some (address, p) ↦ ss_classify my_pid (ss_pid line) address p (ss_owner line p r)
]

unfoldable pub add_ss_lines : ℤ → List Str → ScanResult → ScanResult
add_ss_lines my_pid [] r = r
add_ss_lines my_pid (line ∷ lines) r = add_ss_lines my_pid lines (add_ss_line my_pid line r)

-- `parseSSOutput`.
unfoldable pub parse_ss_output : Str → ℤ → ScanResult
parse_ss_output out my_pid = add_ss_lines my_pid (split 10 out) new_result

-- The columns 0, 1, 4 and 8 of a line; one without column 8 is too short.
pub record LsofLine : Type 0 where
  pub command : Str
  pub pid : ℤ
  pub ip_type : Str
  pub address : Str
  pub port : ℤ

unfoldable pub lsof_columns : Option Str → Option Str → Option Str → Option Str → Option LsofLine
unfolding atoi_value
lsof_columns (some command) (some pid) (some ip_type) (some name) = elim (read_address name) [
  | none ↦ none
  | some (address, p) ↦ some (record {
    command = command;
    pid = atoi_value pid;
    ip_type = ip_type;
    address = address;
    port = p;
  })
]
lsof_columns _ _ _ _ = none

unfoldable pub lsof_entry : Str → Option LsofLine
unfolding contains fields
lsof_entry line =
    let columns = fields line in
    if contains (codes "(LISTEN)") line
    then lsof_columns (nth 0 columns) (nth 1 columns) (nth 4 columns) (nth 8 columns)
    else none

unfoldable pub lsof_classify : ℤ → LsofLine → ScanResult → ScanResult
unfolding str_beq
lsof_classify my_pid l r =
    let any = str_beq l.address (codes "*") in
    let r' =
      if (any || str_beq l.address (codes "0.0.0.0")) && str_beq l.ip_type (codes "IPv4")
      then see_v4 l.port r
      else r in
    if (any || str_beq l.address (codes "[::]")) && str_beq l.ip_type (codes "IPv6")
    then see_v6 (eqb_ℤ l.pid my_pid) l.port r'
    else r'

unfoldable pub add_lsof_line : ℤ → Str → ScanResult → ScanResult
add_lsof_line my_pid line r = elim (lsof_entry line) [
  | none ↦ r
  | some l ↦ lsof_classify my_pid l (name_owner l.port l.pid l.command r)
]

unfoldable pub add_lsof_lines : ℤ → List Str → ScanResult → ScanResult
add_lsof_lines my_pid [] r = r
add_lsof_lines my_pid (line ∷ lines) r = add_lsof_lines my_pid lines (add_lsof_line my_pid line r)

-- What `scanWithLsof` makes of the output.
unfoldable pub parse_lsof_output : Str → ℤ → ScanResult
parse_lsof_output out my_pid = add_lsof_lines my_pid (split 10 out) new_result
