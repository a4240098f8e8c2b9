-- ===== src/Ipc/Format/Numbers.antt =====
-- The numbers of the status table.
use nas_conn_plus.Base.{ℕ, ◌+◌, ◌*◌, ◌^◌, ◌≤◌, ◌<◌, ◌≡◌}

-- What the scale is: the power of 1024 that fits.
abbrev pub Fits : ℕ → ℕ × ℕ → Type 0
Fits b (div, exp) = (div ≡ 1024 ^ (exp + 1)) × (exp ≤ 5) × (div ≤ b) × (b < 1024 * div)
