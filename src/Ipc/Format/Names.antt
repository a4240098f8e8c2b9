-- ===== src/Ipc/Format/Names.antt =====
-- Names that come over the socket.
use nas_conn_plus.Base.{
  ℕ, zero, suc, ◌≤◌, ℤ, pos, negsuc, pos_part, Str, length, ◌≢◌, [], ◌∷◌, All, arith,
}
use nas_conn_plus.Ipc.Format.{sanitize_string, cut, truncate_runes}

-- A rune that is no ASCII control character.
abbrev pub IsPrintable : ℕ → Type 0
IsPrintable r = (32 ≤ r) × (r ≢ 127)

sanitize_string-IsPrintable : (s : Str) → All IsPrintable (sanitize_string s)
unfolding sanitize_string
sanitize_string-IsPrintable [] = tt
sanitize_string-IsPrintable (r ∷ s) = ground (arith, sanitize_string-IsPrintable s)

cut-IsPrintable : (n : ℕ) (s : Str) → All IsPrintable s → All IsPrintable (cut n s)
unfolding cut
cut-IsPrintable n [] v = tt
cut-IsPrintable zero (r ∷ s) v = ((omega arith, λ e. omega (arith, e)), tt)
cut-IsPrintable (suc n) (r ∷ s) (here, v) = (here, cut-IsPrintable n s v)

cut-length : (n : ℕ) (s : Str) → length (cut n s) ≤ suc n
unfolding cut
cut-length n [] = omega arith
cut-length zero (r ∷ s) = omega arith
cut-length (suc n) (r ∷ s) = omega (arith, cut-length n s)

-- A name is shown with no ASCII control character, and with one rune more than the limit at most, however
-- long it came.
pub truncate_runes-IsPrintable :
    (s : Str) (max : ℤ)
    → let shown = truncate_runes (sanitize_string s) max in
      All IsPrintable shown × (length shown ≤ suc (pos_part max))
unfolding truncate_runes
truncate_runes-IsPrintable s (pos zero) = (tt, omega arith)
truncate_runes-IsPrintable s (pos (suc n)) = (
  cut-IsPrintable (suc n) (sanitize_string s) (sanitize_string-IsPrintable s),
  cut-length (suc n) (sanitize_string s),
)
truncate_runes-IsPrintable s (negsuc n) = (tt, omega arith)
