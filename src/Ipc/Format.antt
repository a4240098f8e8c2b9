-- ===== src/Ipc/Format.antt =====
-- internal/ipc/client.go: the texts of the status table. A text is the list of its runes.
pub mod Names
pub mod Numbers
use nas_conn_plus.Base.{
  ℕ, zero, suc, ◌+◌, ◌-◌, ◌*◌, ◌/◌, ◌%◌, ◌^◌, ltb, leb, ◌==◌, ℤ, pos, negsuc, Str, codes, itoa,
  List, [], ◌∷◌, ◌++◌, Option, none, some, Bool, true, false, not, ◌&&◌, if◌then◌else◌,
}

-- `sanitizeString`.
unfoldable pub sanitize_string : Str → Str
sanitize_string [] = []
sanitize_string (r ∷ s) =
    let rest = sanitize_string s in if leb 32 r && not (r == 127) then r ∷ rest else rest

abbrev pub ellipsis : ℕ
ellipsis = 8230

-- The loop of `truncateRunes`, with the runes that `max` leaves.
unfoldable pub cut : ℕ → Str → Str
cut n [] = []
cut zero (r ∷ s) = ellipsis ∷ []
cut (suc n) (r ∷ s) = r ∷ cut n s

-- `truncateRunes`.
unfoldable pub truncate_runes : Str → ℤ → Str
truncate_runes s (pos zero) = []
truncate_runes s (pos (suc n)) = cut (suc n) s
truncate_runes s (negsuc n) = []

-- The loop of `formatBytes`, `left` rounds before `exp` is 5: the divisor and `exp`.
unfoldable pub scale : (left n div exp : ℕ) → ℕ × ℕ
scale zero n div exp = (div, exp)
scale (suc left) n div exp =
    let further = scale left (n / 1024) (div * 1024 % 2 ^ 64) (exp + 1) in
    if leb 1024 n then further else (div, exp)

-- The divisor and `exp` for a number of at least 1024.
unfoldable pub divisor : ℕ → ℕ × ℕ
divisor b = scale 5 (b / 1024) 1024 0

unfoldable pub nth_rune : ℕ → Str → Option ℕ
nth_rune n [] = none
nth_rune zero (r ∷ s) = some r
nth_rune (suc n) (r ∷ s) = nth_rune n s

scaled : (ℕ → ℕ → Str) → ℕ → ℕ × ℕ → Option Str
unfolding nth_rune
scaled quotient b (div, exp) = elim (nth_rune exp (codes "KMGTPE")) [
  | none ↦ none
  | some letter ↦ some (quotient b div ++ (codes " " ++ (letter ∷ codes "B")))
]

-- `formatBytes`; `quotient` prints the quotient of two numbers, as `float64`, with two decimals. `none` is
-- an index out of range.
unfoldable pub format_bytes : (ℕ → ℕ → Str) → ℕ → Option Str
unfolding scaled divisor itoa
format_bytes quotient b =
    if ltb b 1024 then some (itoa (pos b) ++ codes " B") else scaled quotient b (divisor b)

abbrev pub second : ℕ
second = 1000000000

-- `Duration.Round(time.Second)`, from zero on.
unfoldable pub round_second : ℕ → ℕ
round_second d =
    let r = d % second in
    let up = d + second - r in
    if ltb (r + r) second then d - r else if ltb up (2 ^ 63) then up else 2 ^ 63 - 1

pub record Clock : Type 0 where
  pub days : ℕ
  pub hours : ℕ
  pub minutes : ℕ
  pub seconds : ℕ

-- The divisions of `formatDuration`.
unfoldable pub split_duration : ℕ → Clock
split_duration d =
    let days = d / (24 * (3600 * second)) in
    let d' = d - days * (24 * (3600 * second)) in
    let hours = d' / (3600 * second) in
    let d'' = d' - hours * (3600 * second) in
    let minutes = d'' / (60 * second) in
    let d''' = d'' - minutes * (60 * second) in
    record { days = days; hours = hours; minutes = minutes; seconds = d''' / second }

-- `%02d`.
two_digits : ℕ → Str
unfolding itoa
two_digits n = if ltb n 10 then codes "0" ++ itoa (pos n) else itoa (pos n)

show_clock : Clock → Str
unfolding two_digits itoa
show_clock c =
    if ltb 0 c.days
    then itoa (pos c.days)
      ++ (codes "d " ++ (two_digits c.hours ++ (codes "h " ++ (two_digits c.minutes ++ codes "m"))))
    else if ltb 0 c.hours
    then itoa (pos c.hours)
      ++ (codes "h "
          ++ (two_digits c.minutes ++ (codes "m " ++ (two_digits c.seconds ++ codes "s"))))
    else if ltb 0 c.minutes
    then itoa (pos c.minutes) ++ (codes "m " ++ (two_digits c.seconds ++ codes "s"))
    else itoa (pos c.seconds) ++ codes "s"

not_negative : ℤ → ℕ
not_negative (pos n) = n
not_negative (negsuc n) = 0

-- `formatDuration`.
unfoldable pub format_duration : ℤ → Str
unfolding round_second split_duration not_negative show_clock
format_duration d = show_clock (split_duration (round_second (not_negative d)))
