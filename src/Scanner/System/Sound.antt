-- ===== src/Scanner/System/Sound.antt =====
-- What a scan promises, whatever it finds.
use nas_conn_plus.Base.{
  ℕ, ◌+◌, ◌≤◌, ltb, Str, codes, str_eq, ◌≡◌, refl, inl, inr, some, Result, ok, err, Bool-cases,
  arith,
}
use nas_conn_plus.Scanner.{ScanResult}
use nas_conn_plus.Scanner.Table.{ProcInfo, Parse, asks_again}
use nas_conn_plus.Scanner.Table.Sound.{IsScan, scan_proc_fs-IsScan}
use nas_conn_plus.Scanner.Owners.Commands.{scan-IsScan}
use nas_conn_plus.Scanner.Owners.{
  Tree, Owners, cooldown, should_refresh_inodes, refresh_inode_cache,
}
use nas_conn_plus.Scanner.Owners.Walk.{Owns, build_inode_to_pid_map-Owns}
use nas_conn_plus.Scanner.System.{
  System, lookup_proc_info, refresh_if, owners_after, scan_proc, sources, scan_system,
}

-- The owners are kept, or read again from the processes of the machine, `cooldown` after the last time at
-- the earliest.
pub data Refreshed (t : Tree) (now : ℕ) (o o' : Owners) : Type 0 where
  kept : o' ≡ o → Refreshed t now o o'
  again :
      o.last_refresh + cooldown ≤ now
      → o'.last_refresh ≡ now
      → ((inode : Str) (info : ProcInfo)
          → lookup_proc_info o' inode ≡ some info
          → Owns t (codes "/proc") inode info)
      → Refreshed t now o o'

refresh_if-Refreshed :
    (t : Tree) (now : ℕ) (o : Owners)
    → Refreshed t now o (refresh_if t (should_refresh_inodes now o))
unfolding refresh_if should_refresh_inodes refresh_inode_cache lookup_proc_info
refresh_if-Refreshed t now o = elim (Bool-cases (ltb now (o.last_refresh + cooldown))) [
  | inl early ↦ rw early (kept refl)
  | inr late ↦ rw late (
      again (ground arith) refl
        λ inode info e. build_inode_to_pid_map-Owns t (codes "/proc") inode info e)
]

owners_after-Refreshed :
    (t : Tree) (now : ℕ) (o : Owners) (q : Result Str Parse)
    → Refreshed t now o (owners_after t now o q)
unfolding owners_after
owners_after-Refreshed t now o (err e) = kept refl
owners_after-Refreshed t now o (ok q) = elim (Bool-cases (asks_again q.missing)) [
  | inl asks ↦ rw asks (refresh_if-Refreshed t now o)
  | inr no_need ↦ rw no_need (kept refl)
]

-- Whatever procfs holds and the commands print: a scan that succeeds, by procfs or by a command, holds ports
-- from 1 to 65535 only, and every port of a foreign IPv6 listener among those of the IPv6 listeners; and a
-- scan, failed or not, keeps the owners that it knows, or reads them again, no sooner than the cooldown
-- after the last time, and then each of them is a process with that number and name, a descriptor of which
-- links to the socket.
pub scan_system-Sound :
    (s : System) (o : Owners)
    → ((r : ScanResult) → (scan_system s o).0 ≡ ok r → IsScan r)
      × Refreshed s.tree s.now o (scan_system s o).1
unfolding scan_system sources scan_proc
scan_system-Sound s o = (
  λ r e.
      scan-IsScan (sources s o (scan_proc s o).0) r
        (λ q f. scan_proc_fs-IsScan s.my_pid _ _ _ _ s.first s.second q f) e,
  elim (Bool-cases s.has_proc) [
    | inl on ↦ rw on (owners_after-Refreshed s.tree s.now o _)
    | inr off ↦ rw off (kept refl)
  ],
)
