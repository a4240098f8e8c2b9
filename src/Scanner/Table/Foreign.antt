-- ===== src/Scanner/Table/Foreign.antt =====
-- Whose sockets make a port a foreign IPv6 port, and whose make it an IPv4 port.
use nas_conn_plus.Base.{
  ℤ, eqb_ℤ_iff, int_eq, Str, str_eq, str_beq_iff, ◌≡◌, refl, ap, ◌↔◌, ◌⊎◌, inl, inr, List, [], ◌∷◌,
  Option, some, true, false, mem, In, Option-cases, arith,
}
use nas_conn_plus.Scanner.Table.{
  ProcInfo, Socket, Parse, read_line, classify, own, add_socket, add_lines, v6_zero,
}
use nas_conn_plus.Scanner.Table.Sound.{mem-add_port, own-Sets}

-- A line of the table for a socket of another process that listens on `p` on the address `::`.
abbrev pub IsForeign : List Str → ℤ → Str → Type 0
IsForeign self_inodes p line =
    (k : Socket) × (read_line line ≡ some k)
    × (k.address ≡ v6_zero)
    × (k.port ≡ p)
    × (mem k.inode self_inodes ≡ false)

module _ (my_pid : ℤ) (self_inodes : List Str) (lookup : Str → Option ProcInfo) where
  added :
      (k : Socket) (q : Parse) (p : ℤ)
      → (mem p (add_socket true my_pid self_inodes lookup k q).result.v6_others ≡ true) ↔ (
          (mem p q.result.v6_others ≡ true)
          ⊎ ((k.address ≡ v6_zero) × (k.port ≡ p) × (mem k.inode self_inodes ≡ false)))
  unfolding add_socket classify
  added k q p = ground (
    arith,
    own-Sets true my_pid self_inodes lookup k q,
    str_beq_iff k.address v6_zero,
    eqb_ℤ_iff k.port p,
    mem-add_port p k.port (own true my_pid self_inodes lookup k q).result.v6_others,
  )

  -- In a pass over /proc/net/tcp6, a port becomes one of a foreign IPv6 listener exactly by a line for a
  -- socket of another process that listens on it on the address `::`.
  pub add_lines-v6_others :
      (lines : List Str) (q : Parse) (p : ℤ)
      → (mem p (add_lines true my_pid self_inodes lookup lines q).result.v6_others ≡ true) ↔ (
          (mem p q.result.v6_others ≡ true)
          ⊎ ((line : Str) × In line lines × IsForeign self_inodes p line))
  unfolding add_lines
  add_lines-v6_others [] q p =
      (λ h. inl h, λ h. elim h [ inl m ↦ m | inr (line, i, f) ↦ elim i [ ] ])
  add_lines-v6_others (line ∷ lines) q p = elim (Option-cases (read_line line)) [
    | inl bad ↦
        rw (bad, add_lines)
          (
            λ h. elim ((add_lines-v6_others lines q p).0 h) [
              | inl m ↦ inl m
              | inr (l, i, f) ↦ inr (l, inr i, f)
            ],
            λ h. (add_lines-v6_others lines q p).1 (elim h [
              | inl m ↦ inl m
              | inr (l, inl same, (k, at, a, b, c)) ↦ ground (arith, bad, ap read_line same, at)
              | inr (l, inr i, f) ↦ inr (l, i, f)
            ]),
          )
    | inr (k, at) ↦
        let q' = add_socket true my_pid self_inodes lookup k q in
        rw (at, add_lines)
          (
            λ h. elim ((add_lines-v6_others lines q' p).0 h) [
              | inl m ↦ elim ((added k q p).0 m) [
                | inl before ↦ inl before
                | inr (a, b, c) ↦ inr (line, inl refl, (k, at, a, b, c))
              ]
              | inr (l, i, f) ↦ inr (l, inr i, f)
            ],
            λ h. (add_lines-v6_others lines q' p).1 (elim h [
              | inl m ↦ inl ((added k q p).1 (inl m))
              | inr (l, inl same, (k', there, a, b, c)) ↦
                  inl
                    ((added k q p).1 (inr (ground (arith, ap read_line same, there, at, a, b, c))))
              | inr (l, inr i, f) ↦ inr (l, i, f)
            ]),
          )
  ]
