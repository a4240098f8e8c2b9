-- ===== src/Ipc.antt =====
-- internal/ipc/types.go: the report of the daemon, and where its socket is.
pub mod Format
pub mod Render
pub mod Server
pub mod Query
pub mod Tests
use nas_conn_plus.Base.{
  ℕ, ℤ, pos, ◌==◌, Str, codes, itoa, is_empty, List, ◌++◌, Bool, ◌&&◌, if◌then◌else◌,
}
use nas_conn_plus.Config.Paths.{clean, join_path}
use nas_conn_plus.Proxy.Listen.{ListenerMetrics}

-- `StatusReport`; the time is in nanoseconds.
pub record StatusReport : Type 0 where
  pub version : Str
  pub uptime_seconds : ℤ
  pub timestamp : ℕ
  pub listeners : List ListenerMetrics

-- What `os` tells of the process: XDG_RUNTIME_DIR, empty if it is not set; whether `/run` can be stat'ed; the
-- user; and `os.TempDir`.
pub record Process : Type 0 where
  pub xdg_runtime_dir : Str
  pub has_run : Bool
  pub uid : ℕ
  pub temp_dir : Str

abbrev pub socket_name : Str
socket_name = codes "nasconnplus.sock"

-- `DefaultSocketPath`.
unfoldable pub default_socket_path : Process → Str
unfolding clean join_path itoa
default_socket_path p =
    if is_empty p.xdg_runtime_dir
    then (if p.has_run && p.uid == 0
        then codes "/run/nasconnplus.sock"
        else join_path (join_path p.temp_dir (codes "nasconnplus-" ++ itoa (pos p.uid)))
            socket_name)
    else join_path (clean p.xdg_runtime_dir) socket_name
