-- ===== src/Scanner/Owners/Tests.antt =====
-- The walk over a small procfs.
use nas_conn_plus.Base.{
  pos, codes, str_beq, str_eq, has_prefix, has_suffix, split, atoi, ◌≡◌, refl, [], ◌∷◌, some, true,
  false, get, put, if◌then◌else◌,
}
use nas_conn_plus.Config.Paths.{clean, join_path}
use nas_conn_plus.Scanner.Table.{ProcInfo}
use nas_conn_plus.Scanner.Owners.{
  Tree, build_inode_to_pid_map, add_processes, add_fds, fd_inode, info_of, socket_inode,
}
use nas_conn_plus.Scanner.Owners.Walk.{Owns, build_inode_to_pid_map-Owns}

-- One process, with one socket.
abbrev pub tree : Tree
tree = record {
  read_dir = λ p.
      some (if str_beq p (codes "/proc") then (codes "12", true) ∷ [] else (codes "3", false) ∷ []);
  read_link = λ p. some (codes "socket:[77]");
  read_file = λ p. some (codes "nginx\n");
}

abbrev nginx : ProcInfo
nginx = record { pid = pos 12; name = codes "nginx" }

walked : get (codes "77") (build_inode_to_pid_map tree (codes "/proc")) ≡ some nginx
unfolding build_inode_to_pid_map add_processes add_fds fd_inode info_of socket_inode clean join_path
    str_beq has_prefix has_suffix split get put atoi
walked = refl

build_inode_to_pid_map-Owns_example : Owns tree (codes "/proc") (codes "77") nginx
build_inode_to_pid_map-Owns_example =
    build_inode_to_pid_map-Owns tree (codes "/proc") (codes "77") nginx walked
