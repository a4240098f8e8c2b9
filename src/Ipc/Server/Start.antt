-- ===== src/Ipc/Server/Start.antt =====
-- What the server does to the names of the file system.
use nas_conn_plus.Base.{
  Str, str_eq, ◌≡◌, ◌≢◌, refl, ap, ◌∙◌, ◌⊎◌, inl, inr, Option, none, some, get, Result, ok, err,
  Option-cases, arith,
}
use nas_conn_plus.Config.Paths.{clean, dir}
use nas_conn_plus.Ipc.Server.{
  other, Os, Node, StartError, not_a_socket, Server, no_dir, clear_entry, after_lstat, clear_path,
  after_clear, start_in, start_server,
}

-- The server touched no name but its own, no file that is neither a socket nor a link, and not the mask.
pub record Careful (path : Str) (n m : Node) : Type 0 where
  pub elsewhere : (p : Str) → p ≢ path → get p m.entries ≡ get p n.entries
  pub files : (p : Str) → get p n.entries ≡ some other → get p m.entries ≡ some other
  pub mask : m.umask ≡ n.umask

module _ (os : Os) where
  abbrev Refuses : Node → Result StartError Server × Node → Type 0
  Refuses n p = ((s : Server) → p.0 ≢ ok s) × (p.1 ≡ n)

  after_clear-Refuses :
      (path : Str) (n : Node) (cleared : Option StartError × Node)
      → cleared.0 ≢ none
      → cleared.1 ≡ n
      → Refuses n (after_clear os path cleared)
  unfolding after_clear
  after_clear-Refuses path n (some e, m) bad same = (λ s x. ground arith, same)
  after_clear-Refuses path n (none, m) bad same = absurd (bad refl)

  after_lstat-refuses :
      (path : Str) (answer : Option Str) (n : Node)
      → get path n.entries ≡ some other
      → ((after_lstat os path answer n).0 ≢ none)
        × ((after_lstat os path answer n).1 ≡ n)
        × (answer ≡ none → (after_lstat os path answer n).0 ≡ some (not_a_socket path))
  unfolding after_lstat clear_entry
  after_lstat-refuses path (some e) n f = (λ x. ground arith, refl, λ x. ground (arith, x))
  after_lstat-refuses path none n f =
      (λ x. ground (arith, f, x), ground (arith, f), λ x. ground (arith, f))

  start_in-Refuses :
      (folder path : Str) (answer : Option Str) (n : Node)
      → get path n.entries ≡ some other
      → Refuses n (start_in os folder path answer n)
  unfolding start_in clear_path
  start_in-Refuses folder path (some e) n f = (λ s x. ground arith, refl)
  start_in-Refuses folder path none n f =
      let (bad, same, _) = after_lstat-refuses path (os.lstat path) n f in
      after_clear-Refuses path n (clear_path os path n) bad same

  named :
      (folder path : Str) (n : Node)
      → get path n.entries ≡ some other
      → os.lstat path ≡ none
      → (start_in os folder path none n).0 ≡ err (not_a_socket path)
  unfolding start_in clear_path after_clear
  named folder path n f seen =
      let (bad, same, at) = after_lstat-refuses path (os.lstat path) n f in ground (arith, at seen)

  -- Where a file that is neither a socket nor a link has the name of the socket, `StartServer` fails and
  -- changes nothing: the error tells of that file, unless the directory cannot be made or the file cannot be
  -- looked at.
  pub start_server-refuses :
      (socket_path : Str) (n : Node)
      → get (clean socket_path) n.entries ≡ some other
      → ((s : Server) → (start_server os socket_path n).0 ≢ ok s)
        × ((start_server os socket_path n).1 ≡ n)
        × (((e : Str) × (no_dir os (dir (clean socket_path)) ≡ some e))
            ⊎ (((e : Str) × (os.lstat (clean socket_path) ≡ some e))
                ⊎ ((start_server os socket_path n).0 ≡ err (not_a_socket (clean socket_path)))))
  unfolding start_server
  start_server-refuses socket_path n f =
      let path = clean socket_path in
      let (never, same) = start_in-Refuses (dir path) path (no_dir os (dir path)) n f in
      (
        never,
        same,
        elim (Option-cases (no_dir os (dir path))) [
          | inr made ↦ inl made
          | inl made ↦ elim (Option-cases (os.lstat path)) [
            | inr hidden ↦ inr (inl hidden)
            | inl seen ↦ inr (
                inr (
                  ap (λ answer. (start_in os (dir path) path answer n).0) made
                  ∙ named (dir path) path n f seen))
          ]
        ],
      )
