-- ===== src/Domain/Time.antt =====
-- What the service uses of Go's time package. A time is nanoseconds since Go's zero time; a
-- duration is a number of nanoseconds, and `Sub` stops at 0 where Go's result is negative: it is
-- compared with positive durations only, or where it cannot be negative.
use platform_ipam.Prelude.{ℕ, ◌-◌, ◌*◌, ◌^◌, min, Bool, ltb, ◌==◌, nat_eq}

abbrev pub is_zero : ℕ → Bool
is_zero t = t == 0

abbrev pub before : ℕ → ℕ → Bool
before s t = ltb s t

abbrev pub after : ℕ → ℕ → Bool
after s t = ltb t s

abbrev pub max_duration : ℕ
max_duration = 2 ^ 63 - 1

-- `Time.Sub`, which saturates.
abbrev pub sub : ℕ → ℕ → ℕ
sub s t = min (s - t) max_duration

abbrev pub seconds : ℕ → ℕ
seconds n = n * 1_000_000_000

abbrev pub hours : ℕ → ℕ
hours n = n * 3_600_000_000_000
