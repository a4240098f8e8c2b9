-- ===== src/Proxy/Buffers.antt =====
-- service.go `bytePool`: the buffers that the reverse proxies copy with.
use nas_conn_plus.Base.{
  ℕ, ◌*◌, ◌==◌, ==_iff, ◌≡◌, refl, List, ◌∷◌, All, if◌then◌else◌, Bool-cases, inl, inr, arith,
}

abbrev pub buffer_size : ℕ
buffer_size = 32 * 1024

-- What `sync.Pool` yields: nothing, or a value, which is a slice of bytes of some length or is none.
pub data Pooled : Type 0 where
  empty : Pooled
  bytes : (length : ℕ) → Pooled
  other : Pooled

-- `Get`: the length of the buffer.
unfoldable pub get_buffer : Pooled → ℕ
get_buffer empty = buffer_size
get_buffer (bytes n) = if n == buffer_size then n else buffer_size
get_buffer other = buffer_size

-- `Put` on the lengths of the buffers that the pool may yield.
unfoldable pub put_buffer : ℕ → List ℕ → List ℕ
put_buffer n pool = if n == buffer_size then n ∷ pool else pool

-- Buffers of one size only go in and come out, whatever is put into the pool.
get_buffer-size : (p : Pooled) → get_buffer p ≡ buffer_size
unfolding get_buffer
get_buffer-size empty = refl
get_buffer-size (bytes n) = ground (arith, ==_iff n buffer_size)
get_buffer-size other = refl

put_buffer-sizes :
    (n : ℕ) (pool : List ℕ)
    → All (λ l. l ≡ buffer_size) pool
    → All (λ l. l ≡ buffer_size) (put_buffer n pool)
unfolding put_buffer
put_buffer-sizes n pool v = elim (Bool-cases (n == buffer_size)) [
  | inl same ↦ rw same ((==_iff n buffer_size).0 same, v)
  | inr wrong ↦ rw wrong v
]
