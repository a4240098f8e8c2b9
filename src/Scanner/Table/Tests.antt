-- ===== src/Scanner/Table/Tests.antt =====
-- The tables of a small machine: a socket of the service, and one of another process.
use nas_conn_plus.Base.{
  pos, int_eq, str_eq, Str, codes, str_beq, split, fields, atoi, atoi_value, ◌≡◌, refl, ◌↔◌, ◌⊎◌,
  [], ◌∷◌, Option, none, true, false, mem, In, put, ok,
}
use nas_conn_plus.Scanner.{ScanResult, new_result}
use nas_conn_plus.Scanner.Table.{
  ProcInfo, Table, opened, Parse, read_line, read_columns, read_local, parse_hex, to_upper,
  valid_port, add_port, own, classify, add_socket, add_lines, parse_proc_net, parse_both,
  scan_proc_fs,
}
use nas_conn_plus.Scanner.Table.Tools.{
  parse_ss_output, cut_last, read_address, find_pid, find_name, local_column, ss_entry, ss_pid,
  ss_owner, ss_classify, add_ss_line, add_ss_lines,
}
use nas_conn_plus.Scanner.Table.Foreign.{IsForeign, add_lines-v6_others}

abbrev header : Str
header = codes "  sl  local_address rem_address st"

abbrev ours : Str
ours =
    codes
      " 0: 00000000000000000000000000000000:1F90 00000000000000000000000000000000:0000 0A 00000000:00000000 00:00000000 00000000 0 0 41 1"

abbrev theirs : Str
theirs =
    codes
      " 1: 00000000000000000000000000000000:1388 00000000000000000000000000000000:0000 0A 00000000:00000000 00:00000000 00000000 0 0 42 1"

abbrev v4_line : Str
v4_line = codes " 0: 00000000:1F90 00000000:0000 0A 00000000:00000000 00:00000000 00000000 0 0 43 1"

abbrev nobody : Str → Option ProcInfo
nobody inode = none

abbrev tcp : Table
tcp = opened (header ∷ v4_line ∷ []) none

abbrev tcp6 : Table
tcp6 = opened (header ∷ ours ∷ theirs ∷ []) none

abbrev scanned : ScanResult
scanned = record {
  v4_wild = pos 8080 ∷ [];
  v6_any = pos 5000 ∷ pos 8080 ∷ [];
  v6_others = pos 5000 ∷ [];
  pids = (pos 8080, pos 7) ∷ [];
  names = (pos 8080, codes "nasconnplus") ∷ [];
}

scans :
    scan_proc_fs (pos 7) (codes "41" ∷ []) nobody nobody false (tcp, tcp6) (tcp, tcp6) ≡ ok scanned
unfolding scan_proc_fs parse_both parse_proc_net add_lines add_socket own classify read_line
    read_columns read_local parse_hex to_upper valid_port add_port fields split str_beq mem put
    new_result
scans = refl

abbrev start : Parse
start = record { result = new_result; missing = none }

add_lines-v6_others_example :
    (mem
        (pos 5000)
        (add_lines true
          (pos 7)
          (codes "41" ∷ [])
          nobody
          (ours ∷ theirs ∷ [])
          start).result.v6_others
      ≡ true)
    ↔ ((mem (pos 5000) start.result.v6_others ≡ true)
        ⊎ ((line : Str) × In line (ours ∷ theirs ∷ [])
            × IsForeign (codes "41" ∷ []) (pos 5000) line))
add_lines-v6_others_example =
    add_lines-v6_others (pos 7) (codes "41" ∷ []) nobody (ours ∷ theirs ∷ []) start (pos 5000)

abbrev pub ss_text : Str
ss_text = codes "LISTEN 0 128 *:5000 *:* users:((\"dsm\",pid=42,fd=3))"

abbrev pub ss_result : ScanResult
ss_result = record {
  v4_wild = [];
  v6_any = pos 5000 ∷ [];
  v6_others = pos 5000 ∷ [];
  pids = (pos 5000, pos 42) ∷ [];
  names = (pos 5000, codes "dsm") ∷ [];
}

pub ss_test : parse_ss_output ss_text (pos 7) ≡ ss_result
unfolding parse_ss_output add_ss_lines add_ss_line ss_entry ss_owner ss_classify ss_pid local_column
    read_address cut_last find_pid find_name valid_port add_port fields split str_beq mem put
    new_result atoi atoi_value
ss_test = refl
