-- ===== src/Ipc/Server/Close.antt =====
-- What `Close` leaves of a server that was started.
use nas_conn_plus.Base.{
  ℕ, Str, str_beq, str_beq_iff, ◌≡◌, refl, subst, inl, inr, List, [], ◌∷◌, In, Option, none, some,
  true, false, Result, ok, err, Bool-cases, arith, if◌then◌else◌,
}
use nas_conn_plus.Config.Paths.{clean, dir}
use nas_conn_plus.Ipc.Server.{
  Os, Server, Node, StartError, start_server, start_in, no_dir, clear_path, after_clear, listen_at,
  after_listen, close_server, without,
}

module _ (os : Os) where
  without-In : (path : Str) (ps : List Str) → ¬ In path (without os path ps)
  unfolding without
  without-In path [] i = elim i [ ]
  without-In path (p ∷ ps) i = elim (Bool-cases (str_beq p path)) [
    | inl same ↦
        without-In path ps
          (subst (λ b. In path (if b then without os path ps else p ∷ without os path ps)) same i)
    | inr other ↦
        elim (subst (λ b. In path (if b then without os path ps else p ∷ without os path ps)) other
          i) [ inl e ↦ ground (arith, other, str_beq_iff p path, e) | inr j ↦ without-In path ps j ]
  ]

  -- A closed server does not listen any more.
  pub close_server-quiet :
      (s : Server) (n : Node)
      → s.closed ≡ false
      → let (e, s', n') = close_server os s n in (s'.closed ≡ true) × ¬ In s'.path n'.listening
  unfolding close_server
  close_server-quiet s n open_before = simp open_before (refl, without-In s.path n.listening)

  abbrev pub IsOpen : Result StartError Server → Type 0
  IsOpen (err e) = Unit {0}
  IsOpen (ok s) = s.closed ≡ false

  after_listen-IsOpen :
      (path : Str) (m : ℕ) (answer : Option Str) (n : Node)
      → IsOpen (after_listen os path m answer n).0
  unfolding after_listen
  after_listen-IsOpen path m (some e) n = tt
  after_listen-IsOpen path m none n = refl

  after_clear-IsOpen :
      (path : Str) (p : Option StartError × Node) → IsOpen (after_clear os path p).0
  unfolding after_clear listen_at
  after_clear-IsOpen path (some e, n) = tt
  after_clear-IsOpen path (none, n) =
      after_listen-IsOpen path n.umask (os.listen path) (record n { umask = 63 })

  start_in-IsOpen :
      (folder path : Str) (answer : Option Str) (n : Node)
      → IsOpen (start_in os folder path answer n).0
  unfolding start_in
  start_in-IsOpen folder path (some e) n = tt
  start_in-IsOpen folder path none n = after_clear-IsOpen path (clear_path os path n)

  -- A server that has started is not closed.
  pub start_server-IsOpen :
      (socket_path : Str) (n : Node) → IsOpen (start_server os socket_path n).0
  unfolding start_server
  start_server-IsOpen socket_path n =
      let path = clean socket_path in start_in-IsOpen (dir path) path (no_dir os (dir path)) n
