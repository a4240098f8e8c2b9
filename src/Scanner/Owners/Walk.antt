-- ===== src/Scanner/Owners/Walk.antt =====
-- Who owns a socket, according to the walk over procfs.
use nas_conn_plus.Base.{
  ℤ, Str, str_beq, str_beq_iff, str_eq, atoi, ◌≡◌, refl, subst, inl, inr, List, [], ◌∷◌, Option,
  none, some, Bool, true, false, Map, get, put, get-put, In, Option-cases, Bool-cases, arith,
}
use nas_conn_plus.Scanner.Table.{ProcInfo}
use nas_conn_plus.Scanner.Owners.{
  Tree, fd_inode, add_fds, fd_folder, info_of, add_process, add_processes, build_inode_to_pid_map,
}

-- A process that procfs lists has a descriptor that is the socket; `info` tells of that process.
pub record Owns (t : Tree) (root inode : Str) (info : ProcInfo) : Type 0 where
  pub name : Str
  pub dirs : List (Str × Bool)
  pub root_read : t.read_dir root ≡ some dirs
  pub is_listed : In (name, true) dirs
  pub pid : atoi name ≡ some info.pid
  pub same : info ≡ info_of t root name info.pid
  pub fds : List (Str × Bool)
  pub fds_read : t.read_dir (fd_folder t root name) ≡ some fds
  pub fd : Str × Bool
  pub has_fd : In fd fds
  pub link : fd_inode t (fd_folder t root name) fd.0 ≡ some inode

abbrev Within : List (Str × Bool) → List (Str × Bool) → Type 0
Within part whole = (x : Str × Bool) → In x part → In x whole

module _ (t : Tree) (root : Str) where
  abbrev Owned : Map Str ProcInfo → Type 0
  Owned m = (inode : Str) (info : ProcInfo) → get inode m ≡ some info → Owns t root inode info

  put-Owned :
      (inode : Str) (info : ProcInfo) (m : Map Str ProcInfo)
      → Owned m
      → Owns t root inode info
      → Owned (put inode info m)
  put-Owned inode info m v own i found g = elim (Bool-cases (str_beq inode i)) [
    | inr other ↦ v i found (ground (arith, get-put inode i info m, other, g))
    | inl here ↦
        let at : inode ≡ i = (str_beq_iff inode i).0 here in
        let is : info ≡ found = ground (arith, get-put inode i info m, here, g) in
        subst (λ (j : Str). Owns t root j found) at
          (subst (λ (x : ProcInfo). Owns t root inode x) is own)
  ]

  -- One process, of which the entries `all` are read.
  module _ (dirs : List (Str × Bool)) (listed : t.read_dir root ≡ some dirs) where
    add_fds-Owned :
        (name : Str) (pid : ℤ) (all fds : List (Str × Bool)) (m : Map Str ProcInfo)
        → In (name, true) dirs
        → atoi name ≡ some pid
        → t.read_dir (fd_folder t root name) ≡ some all
        → Within fds all
        → Owned m
        → Owned (add_fds t (info_of t root name pid) (fd_folder t root name) fds m)
    unfolding add_fds info_of
    add_fds-Owned name pid all [] m here e r sub v = v
    add_fds-Owned name pid all (d ∷ fds) m here e r sub v =
        let info = info_of t root name pid in
        let rest : Within fds all = λ x i. sub x (inr i) in
        elim (Option-cases (fd_inode t (fd_folder t root name) d.0)) [
          | inl gone ↦ rw (gone, add_fds) (add_fds-Owned name pid all fds m here e r rest v)
          | inr (inode, at) ↦
              rw (at, add_fds)
                (add_fds-Owned name pid all fds (put inode info m) here e r rest (
                  put-Owned inode info m v (record {
                    name = name;
                    dirs = dirs;
                    root_read = listed;
                    is_listed = here;
                    pid = e;
                    same = refl;
                    fds = all;
                    fds_read = r;
                    fd = d;
                    has_fd = sub d (inl refl);
                    link = at;
                  })))
        ]

    add_process-Owned :
        (name : Str) (pid : Option ℤ) (m : Map Str ProcInfo)
        → In (name, true) dirs
        → atoi name ≡ pid
        → Owned m
        → Owned (add_process t root name pid m)
    unfolding add_process
    add_process-Owned name none m here e v = v
    add_process-Owned name (some pid) m here e v =
        elim (Option-cases (t.read_dir (fd_folder t root name))) [
          | inl gone ↦ rw (gone, add_process) v
          | inr (fds, r) ↦
              rw (r, add_process) (add_fds-Owned name pid fds fds m here e r (λ x i. i) v)
        ]

    add_processes-Owned :
        (part : List (Str × Bool)) (m : Map Str ProcInfo)
        → Within part dirs
        → Owned m
        → Owned (add_processes t root part m)
    unfolding add_processes
    add_processes-Owned [] m sub v = v
    add_processes-Owned ((name, false) ∷ part) m sub v =
        add_processes-Owned part m (λ x i. sub x (inr i)) v
    add_processes-Owned ((name, true) ∷ part) m sub v =
        add_processes-Owned part (add_process t root name (atoi name) m) (λ x i. sub x (inr i))
          (add_process-Owned name (atoi name) m (sub (name, true) (inl refl)) refl v)

  -- The walk over procfs invents nothing: where it names an owner of a socket, procfs lists a process with
  -- that number and name, and a descriptor of the process links to the socket.
  pub build_inode_to_pid_map-Owns :
      (inode : Str) (info : ProcInfo)
      → get inode (build_inode_to_pid_map t root) ≡ some info
      → Owns t root inode info
  unfolding build_inode_to_pid_map get
  build_inode_to_pid_map-Owns inode info g = elim (Option-cases (t.read_dir root)) [
    | inl gone ↦ ground (arith, gone, g)
    | inr (dirs, listed) ↦
        add_processes-Owned dirs listed dirs [] (λ x i. i) (λ i f h. ground arith) inode info
          (ground (arith, listed, g))
  ]
