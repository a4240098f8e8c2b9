-- ===== src/Scanner/System.antt =====
-- scanner.go: `scanProcFS` with the owners that it keeps, and `Scan` on the machine.
pub mod Sound
pub mod Tests
use nas_conn_plus.Base.{
  ℕ, ℤ, Str, codes, str_eq, List, Option, none, some, Bool, true, false, get, Result, ok, err,
  if◌then◌else◌,
}
use nas_conn_plus.Scanner.{ScanResult}
use nas_conn_plus.Scanner.Table.{ProcInfo, Parse, Table, asks_again, parse_both, scan_proc_fs}
use nas_conn_plus.Scanner.Owners.{
  Tree, get_self_socket_inodes, Owners, should_refresh_inodes, refresh_inode_cache, Sources, scan,
}

-- What a scan finds: whether `/proc/net/tcp` can be stat'ed, the processes, the two tables as each pass
-- reads them, the clock, whether the system is macOS, and what each command prints, or its error.
pub record System : Type 0 where
  pub has_proc : Bool
  pub tree : Tree
  pub first : Table × Table
  pub second : Table × Table
  pub now : ℕ
  pub is_darwin : Bool
  pub lsof : Result Str Str
  pub ss : Result Str Str
  pub my_pid : ℤ

-- `lookupProcInfo`.
unfoldable pub lookup_proc_info : Owners → Str → Option ProcInfo
unfolding get
lookup_proc_info o inode = get inode o.cached_inodes

-- `missingInodes && shouldRefreshInodes()`: the owners are read again at most.
refresh_if : Tree → Bool × Owners → Owners
refresh_if t (true, o) = refresh_inode_cache t (codes "/proc") o
refresh_if t (false, o) = o

-- The owners after a first pass.
owners_after : Tree → ℕ → Owners → Result Str Parse → Owners
unfolding refresh_if
owners_after t now o (err e) = o
owners_after t now o (ok q) =
    if asks_again q.missing then refresh_if t (should_refresh_inodes now o) else o

module _ (s : System) (o : Owners) where
  unfoldable pub self_inodes : List Str
  self_inodes = get_self_socket_inodes s.tree (codes "/proc/self/fd")

  -- `scanProcFS`.
  unfoldable pub scan_proc : Result Str ScanResult × Owners
  unfolding owners_after
  scan_proc = (
    scan_proc_fs s.my_pid self_inodes (lookup_proc_info o)
        (lookup_proc_info (refresh_inode_cache s.tree (codes "/proc") o))
        (should_refresh_inodes s.now o).0 s.first s.second,
    owners_after s.tree s.now o
        (parse_both s.my_pid self_inodes (lookup_proc_info o) s.first (some false)),
  )

  sources : Result Str ScanResult → Sources
  sources found = record {
    has_proc = s.has_proc;
    proc_fs = found;
    is_darwin = s.is_darwin;
    lsof = s.lsof;
    ss = s.ss;
    my_pid = s.my_pid;
  }

  -- `Scan`.
  unfoldable pub scan_system : Result Str ScanResult × Owners
  unfolding sources
  scan_system = (scan (sources (scan_proc.0)), if s.has_proc then scan_proc.1 else o)
