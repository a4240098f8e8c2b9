-- ===== src/Ipc/Tests.antt =====
-- The theorems on the status query, applied.
use nas_conn_plus.Base.{
  ◌≤◌, pos, Str, codes, str_beq, has_prefix, split, length, itoa, ◌≡◌, ◌≢◌, refl, ◌⊎◌, [], ◌∷◌, All,
  none, some, get, ok, err,
}
use nas_conn_plus.Config.Paths.{clean, dir}
use nas_conn_plus.Ipc.Format.{sanitize_string, truncate_runes, format_duration}
use nas_conn_plus.Ipc.Format.Names.{IsPrintable, truncate_runes-IsPrintable}
use nas_conn_plus.Ipc.Server.{other, Os, Node, Server, not_a_socket, no_dir, start_server}
use nas_conn_plus.Ipc.Server.Start.{start_server-refuses}

-- A name with an escape code.
abbrev coloured : Str
coloured = 27 ∷ codes "[31mnas"

truncate_runes-IsPrintable_example :
    All IsPrintable (truncate_runes (sanitize_string coloured) (pos 4))
    × (length (truncate_runes (sanitize_string coloured) (pos 4)) ≤ 5)
truncate_runes-IsPrintable_example = truncate_runes-IsPrintable coloured (pos 4)

shown_duration : format_duration (pos 90061500000000) ≡ codes "1d 01h 01m"
unfolding format_duration itoa
shown_duration = refl

abbrev pub os : Os
os = record {
  mkdir = λ p. none;
  lstat = λ p. none;
  remove = λ p. none;
  listen = λ p. none;
  chmod = λ p. none;
  close = λ p. none;
}

abbrev pub node : Node
node = record { entries = (codes "/run/nas.sock", other) ∷ []; umask = 18; listening = [] }

start_server-refuses_example :
    ((s : Server) → (start_server os (codes "/run//nas.sock") node).0 ≢ ok s)
    × ((start_server os (codes "/run//nas.sock") node).1 ≡ node)
    × (((e : Str) × (no_dir os (dir (clean (codes "/run//nas.sock"))) ≡ some e))
        ⊎ (((e : Str) × (os.lstat (clean (codes "/run//nas.sock")) ≡ some e))
            ⊎ ((start_server os (codes "/run//nas.sock") node).0
                ≡ err (not_a_socket (clean (codes "/run//nas.sock"))))))
unfolding clean get str_beq has_prefix split
start_server-refuses_example = start_server-refuses os (codes "/run//nas.sock") node refl
