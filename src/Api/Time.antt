-- ===== src/Api/Time.antt =====
-- Go's `time.Time` and `time.Duration`, both in nanoseconds, and pkg/pki/clock/clock.go.
-- A time counts from the Unix epoch. `Add` is exact; `Sub` saturates, as in package time.
use kucero.Base.{ℤ, pos, negsuc, ◌+ℤ◌, ◌-ℤ◌, ltb_ℤ, ℕ, ◌*◌, ◌^◌, ◌-◌, Bool, if◌then◌else◌}

abbrev pub Time : Type 0
Time = ℤ

abbrev pub Duration : Type 0
Duration = ℤ

abbrev pub nanoseconds_in_second : ℕ
nanoseconds_in_second = 10 ^ 9

abbrev pub seconds : ℕ → Duration
seconds n = pos (n * nanoseconds_in_second)

abbrev pub minutes : ℕ → Duration
minutes n = seconds (n * 60)

-- `time.Time{}`: 1 January of the year 1.
abbrev pub zero_time : Time
zero_time = negsuc (62135596800 * nanoseconds_in_second - 1)

abbrev pub before : Time → Time → Bool
before t u = ltb_ℤ t u

abbrev pub add : Time → Duration → Time
add t d = t +ℤ d

abbrev pub negate : Duration → Duration
negate d = pos 0 -ℤ d

abbrev pub min_duration : Duration
min_duration = negsuc (2 ^ 63 - 1)

abbrev pub max_duration : Duration
max_duration = pos (2 ^ 63 - 1)

unfoldable pub saturate : ℤ → Duration
saturate d =
    if ltb_ℤ d min_duration then min_duration else if ltb_ℤ max_duration d then max_duration else d

-- `t.Sub(u)`.
unfoldable pub sub : Time → Time → Duration
unfolding saturate ◌-ℤ◌
sub t u = saturate (t -ℤ u)

-- The interface `Clock` over a world of type `W`: a reading, and the world after it.
pub record Clock (W : Type 0) : Type 0 where
  pub now : W → record { time : Time; world : W }

-- `RealClock` delegates to `time.Now`, which is not in the repository.
abbrev pub new_real_clock : {W : Type 0} → (W → record { time : Time; world : W }) → Clock W
new_real_clock time_now = record { now = time_now }
