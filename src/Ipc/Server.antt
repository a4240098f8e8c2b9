-- ===== src/Ipc/Server.antt =====
-- internal/ipc/server.go: the socket of the status query. `Lstat`, `Remove` and `Listen` work on the names of
-- the file system; what else can fail is a parameter.
pub mod Start
pub mod Close
use nas_conn_plus.Base.{
  ℕ, Str, codes, str_beq, str_eq, contains, is_empty, List, [], ◌∷◌, Option, none, some, Bool, true,
  false, not, ◌&&◌, ◌||◌, Map, get, put, delete, Result, ok, err, if◌then◌else◌,
}
use nas_conn_plus.Config.Paths.{clean, dir}

-- What a name stands for; `socket` holds its permissions.
pub data Entry : Type 0 where
  symlink other : Entry
  socket : ℕ → Entry

-- The operating system: `some e` is the error of a call. A removal that finds no file is no fault here.
pub record Os : Type 0 where
  pub mkdir : Str → Option Str
  pub lstat : Str → Option Str
  pub remove : Str → Option Str
  pub listen : Str → Option Str
  pub chmod : Str → Option Str
  pub close : Str → Option Str

-- The names, the file mode creation mask of the process, and the names that are listened on.
pub record Node : Type 0 where
  pub entries : Map Str Entry
  pub umask : ℕ
  pub listening : List Str

pub data StartError : Type 0 where
  create_dir not_a_socket : Str → StartError
  remove_symlink remove_socket bad_lstat : Str → StartError
  bad_listen : Str → StartError

-- `Server`: whether `closeOnce` has run, which closes `stop`.
pub record Server : Type 0 where
  pub path : Str
  pub closed : Bool

module _ (os : Os) where
  -- `os.MkdirAll` of the directory, where there is one.
  unfoldable pub no_dir : Str → Option Str
  unfolding str_beq
  no_dir d = if str_beq d (codes ".") || is_empty d then none else os.mkdir d

  removed : StartError → Str → Option Str → Node → Option StartError × Node
  removed error path (some e) n = (some error, n)
  removed error path none n = (none, record n { entries = delete path n.entries })

  clear_entry : Str → Option Entry → Node → Option StartError × Node
  unfolding removed
  clear_entry path none n = (none, n)
  clear_entry path (some symlink) n = removed (remove_symlink path) path (os.remove path) n
  clear_entry path (some (socket mode)) n = removed (remove_socket path) path (os.remove path) n
  clear_entry path (some other) n = (some (not_a_socket path), n)

  after_lstat : Str → Option Str → Node → Option StartError × Node
  unfolding clear_entry get
  after_lstat path (some e) n = (some (bad_lstat path), n)
  after_lstat path none n = clear_entry path (get path n.entries) n

  -- The cleanup of what an earlier daemon has left.
  clear_path : Str → Node → Option StartError × Node
  unfolding after_lstat
  clear_path path n = after_lstat path (os.lstat path) n

  -- `Chmod(0600)`, whose error is dropped: then the permissions are those under the mask.
  mode_of : Str → ℕ
  mode_of path = elim (os.chmod path) [ none ↦ 384 | some e ↦ 448 ]

  -- `Umask(0077)` before `Listen`, and the old mask after it.
  after_listen : Str → ℕ → Option Str → Node → Result StartError Server × Node
  unfolding mode_of put
  after_listen path old (some e) n = (err (bad_listen path), record n { umask = old })
  after_listen path old none n = (
    ok (record { path = path; closed = false }),
    record n {
      umask = old;
      entries = put path (socket (mode_of path)) n.entries;
      listening = path ∷ n.listening;
    },
  )

  listen_at : Str → Node → Result StartError Server × Node
  unfolding after_listen
  listen_at path n = after_listen path n.umask (os.listen path) (record n { umask = 63 })

  after_clear : Str → Option StartError × Node → Result StartError Server × Node
  unfolding listen_at
  after_clear path (some e, n) = (err e, n)
  after_clear path (none, n) = listen_at path n

  start_in : Str → Str → Option Str → Node → Result StartError Server × Node
  unfolding after_clear clear_path
  start_in folder path (some e) n = (err (create_dir folder), n)
  start_in folder path none n = after_clear path (clear_path path n)

  -- `StartServer`.
  unfoldable pub start_server : Str → Node → Result StartError Server × Node
  unfolding start_in no_dir
  start_server socket_path n =
      let path = clean socket_path in start_in (dir path) path (no_dir (dir path)) n

  -- `ln.Close` of a listener on a path and `os.Remove` both unlink the name.
  unlinked : Str → Map Str Entry → Map Str Entry
  unlinked path m = elim (os.remove path) [ none ↦ delete path m | some e ↦ m ]

  without : Str → List Str → List Str
  unfolding str_beq
  without path [] = []
  without path (p ∷ ps) = let rest = without path ps in if str_beq p path then rest else p ∷ rest

  -- `Close`: the error of the first call; later calls do nothing.
  unfoldable pub close_server : Server → Node → Option Str × Server × Node
  unfolding unlinked without
  close_server s n = if s.closed then (none, s, n) else (
    os.close s.path,
    record s { closed = true },
    record n { entries = unlinked s.path n.entries; listening = without s.path n.listening },
  )

-- What `Accept` returns to `serve`: a connection, or an error, with its text.
pub data Accepted : Type 0 where
  conn : Accepted
  failed : (stopped timed_out : Bool) → Str → Accepted

pub data Round : Type 0 where
  returns handles : Round
  sleeps : ℕ → Round

-- An error that may go away.
unfoldable pub is_temporary : Str → Bool
unfolding contains
is_temporary text =
    contains (codes "too many open files") text
    || (contains (codes "too many") text
        || (contains (codes "no buffer space") text
            || (contains (codes "resource temporarily unavailable") text
                || contains (codes "temporary") text)))

unfoldable pub serve_round : Accepted → Round
unfolding is_temporary contains
serve_round conn = handles
serve_round (failed stopped timed_out text) =
    if stopped
    then returns
    else if timed_out
    then sleeps 50000000
    else if is_temporary text
    then sleeps 100000000
    else if contains (codes "use of closed network connection") text
    then returns
    else sleeps 50000000

go_on : Round → List Round → List Round
go_on returns rest = returns ∷ []
go_on handles rest = handles ∷ rest
go_on (sleeps t) rest = sleeps t ∷ rest

-- `serve`: its rounds, for the answers of `Accept` one after the other.
unfoldable pub serve_rounds : List Accepted → List Round
unfolding go_on serve_round
serve_rounds [] = []
serve_rounds (a ∷ accepts) = go_on (serve_round a) (serve_rounds accepts)
