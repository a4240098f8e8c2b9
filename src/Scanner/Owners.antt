-- ===== src/Scanner/Owners.antt =====
-- scanner.go: which process owns a socket, by the links under /proc/<pid>/fd; and `Scan`.
pub mod Walk
pub mod Commands
pub mod Tests
use mathlib.Core.List.{reverse}
use nas_conn_plus.Base.{
  ℕ, zero, suc, ◌+◌, ◌-◌, ltb, ℤ, pos, Str, codes, str_eq, has_prefix, has_suffix, is_space, atoi,
  List, [], ◌∷◌, ◌++◌, Option, none, some, Bool, true, false, ◌&&◌, Map, get, put, mem, Result, ok,
  err, if◌then◌else◌,
}
use nas_conn_plus.Config.Paths.{join_path}
use nas_conn_plus.Scanner.{ScanResult}
use nas_conn_plus.Scanner.Table.{ProcInfo, Table, scan_proc_fs, add_port}
use nas_conn_plus.Scanner.Table.Tools.{parse_ss_output, parse_lsof_output}

-- procfs at a moment: `os.ReadDir`, with whether an entry is a directory; `os.Readlink`; `os.ReadFile`.
-- `none` is an error.
pub record Tree : Type 0 where
  pub read_dir : Str → Option (List (Str × Bool))
  pub read_link : Str → Option Str
  pub read_file : Str → Option Str

-- `target[8 : len(target)-1]` of a link "socket:[...]".
drop : ℕ → Str → Str
drop zero s = s
drop (suc n) [] = []
drop (suc n) (c ∷ s) = drop n s

but_last : Str → Str
but_last [] = []
but_last (c ∷ []) = []
but_last (c ∷ d ∷ s) = c ∷ but_last (d ∷ s)

unfoldable pub socket_inode : Str → Option Str
unfolding has_prefix has_suffix drop but_last
socket_inode target =
    if has_prefix (codes "socket:[") target && has_suffix (codes "]") target
    then some (but_last (drop 8 target))
    else none

abbrev link_inode : Option Str → Option Str
link_inode none = none
link_inode (some target) = socket_inode target

trim_left : Str → Str
unfolding is_space
trim_left [] = []
trim_left (c ∷ s) = if is_space c then trim_left s else c ∷ s

-- `strings.TrimSpace` on ASCII text.
trim_space : Str → Str
unfolding trim_left
trim_space s = reverse (trim_left (reverse (trim_left s)))

abbrev proc_name : Option Str → Str
proc_name none = []
proc_name (some comm) = trim_space comm

module _ (t : Tree) where
  -- The inode that the link of a descriptor names.
  unfoldable pub fd_inode : Str → Str → Option Str
  unfolding socket_inode join_path
  fd_inode fd_dir fd = link_inode (t.read_link (join_path fd_dir fd))

  self_fds : Str → List (Str × Bool) → List Str → List Str
  unfolding fd_inode mem
  self_fds fd_dir [] inodes = inodes
  self_fds fd_dir ((fd, _) ∷ fds) inodes = elim (fd_inode fd_dir fd) [
    | none ↦ self_fds fd_dir fds inodes
    | some inode ↦ self_fds fd_dir fds (if mem inode inodes then inodes else inode ∷ inodes)
  ]

  -- `getSelfSocketInodesWith`.
  unfoldable pub get_self_socket_inodes : Str → List Str
  unfolding self_fds
  get_self_socket_inodes fd_dir = elim (t.read_dir fd_dir) [
    | none ↦ []
    | some fds ↦ self_fds fd_dir fds []
  ]

  -- The descriptors of a process.
  unfoldable pub add_fds : ProcInfo → Str → List (Str × Bool) → Map Str ProcInfo → Map Str ProcInfo
  unfolding put
  add_fds info fd_dir [] inodes = inodes
  add_fds info fd_dir ((fd, _) ∷ fds) inodes = elim (fd_inode fd_dir fd) [
    | none ↦ add_fds info fd_dir fds inodes
    | some inode ↦ add_fds info fd_dir fds (put inode info inodes)
  ]

  abbrev pub fd_folder : Str → Str → Str
  fd_folder root name = join_path (join_path root name) (codes "fd")

  unfoldable pub info_of : Str → Str → ℤ → ProcInfo
  unfolding trim_space join_path
  info_of root name pid = record {
    pid = pid;
    name = proc_name (t.read_file (join_path (join_path root name) (codes "comm")));
  }

  add_process : Str → Str → Option ℤ → Map Str ProcInfo → Map Str ProcInfo
  unfolding add_fds info_of
  add_process root name none inodes = inodes
  add_process root name (some pid) inodes = elim (t.read_dir (fd_folder root name)) [
    | none ↦ inodes
    | some fds ↦ add_fds (info_of root name pid) (fd_folder root name) fds inodes
  ]

  unfoldable pub add_processes : Str → List (Str × Bool) → Map Str ProcInfo → Map Str ProcInfo
  unfolding add_process atoi
  add_processes root [] inodes = inodes
  add_processes root ((name, is_dir) ∷ dirs) inodes =
      add_processes root dirs (if is_dir then add_process root name (atoi name) inodes else inodes)

  -- `buildInodeToPIDMapWith`.
  unfoldable pub build_inode_to_pid_map : Str → Map Str ProcInfo
  build_inode_to_pid_map root = elim (t.read_dir root) [
    | none ↦ []
    | some dirs ↦ add_processes root dirs []
  ]

-- The package variables: the owners that were read last, and when, in nanoseconds since 1970.
pub record Owners : Type 0 where
  pub cached_inodes : Map Str ProcInfo
  pub last_refresh : ℕ

-- `inodeRefreshCooldown`.
abbrev pub cooldown : ℕ
cooldown = 10000000000

-- `shouldRefreshInodes`: one goroutine scans, so that the `CompareAndSwap` succeeds. A clock that was set
-- back gives a negative difference.
unfoldable pub should_refresh_inodes : ℕ → Owners → Bool × Owners
should_refresh_inodes now o =
    if ltb now (o.last_refresh + cooldown)
    then (false, o)
    else (true, record o { last_refresh = now })

-- `refreshInodeCacheWith`.
unfoldable pub refresh_inode_cache : Tree → Str → Owners → Owners
unfolding build_inode_to_pid_map
refresh_inode_cache t root o = record o { cached_inodes = build_inode_to_pid_map t root }

-- What `Scan` finds on the machine: whether `/proc/net/tcp` can be stat'ed, the result of `scanProcFS`,
-- whether the system is macOS, and the output of each command, or its error.
pub record Sources : Type 0 where
  pub has_proc : Bool
  pub proc_fs : Result Str ScanResult
  pub is_darwin : Bool
  pub lsof : Result Str Str
  pub ss : Result Str Str
  pub my_pid : ℤ

parsed : (Str → ℤ → ScanResult) → ℤ → Result Str Str → Result Str ScanResult
parsed parse my_pid (err e) = err e
parsed parse my_pid (ok out) = ok (parse out my_pid)

by_command : Sources → Result Str ScanResult
unfolding parsed
by_command s =
    if s.is_darwin
    then parsed parse_lsof_output s.my_pid s.lsof
    else parsed parse_ss_output s.my_pid s.ss

or_command : Sources → Result Str ScanResult → Result Str ScanResult
unfolding by_command
or_command s (ok res) = ok res
or_command s (err e) = by_command s

-- `Scan`: procfs, or else the command of the system.
unfoldable pub scan : Sources → Result Str ScanResult
unfolding or_command by_command
scan s = if s.has_proc then or_command s s.proc_fs else by_command s
