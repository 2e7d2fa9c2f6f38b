-- ===== src/Common/Clock.antt =====
-- Instants as microseconds since 1970-01-01T00:00Z, and the civil times the source derives.
use Prim.Native.Nat.{ℕ, ◌+◌, ◌-◌, ◌/◌, ◌%◌, ◌≤◌}
use mathlib.Core.Path.{◌≡◌}
use mathlib.Core.Logic.{◌≢◌}
use native.Mathlib.Omega.{arith}

-- A `datetime`: naive, by its wall clock, or aware, by the instant that it names.
pub data DateTime : Type 0 where
  naive aware : ℕ → DateTime

abbrev pub second_us : ℕ
second_us = 1_000_000

abbrev pub minute_us : ℕ
minute_us = 60_000_000

abbrev pub day_us : ℕ
day_us = 86_400_000_000

-- Asia/Kolkata is UTC+05:30 at all times.
abbrev pub ist_offset_us : ℕ
ist_offset_us = 19_800_000_000

-- `t.astimezone(IST).date()`, as a count of days.
unfoldable pub ist_date : ℕ → ℕ
ist_date t = (t + ist_offset_us) / day_us

-- `t.astimezone(IST).time()`, as microseconds since midnight.
unfoldable pub ist_time : ℕ → ℕ
ist_time t = (t + ist_offset_us) % day_us

-- `t.replace(second=0, microsecond=0)`
unfoldable pub floor_minute : ℕ → ℕ
floor_minute t = t - t % minute_us

pub floor_minute_mono : (s t : ℕ) → s ≤ t → floor_minute s ≤ floor_minute t
unfolding floor_minute
floor_minute_mono s t h = omega arith

pub ist_date_mono : (s t : ℕ) → s ≤ t → ist_date s ≤ ist_date t
unfolding ist_date
ist_date_mono s t h = omega arith

-- A minute other than that of a later instant is over.
pub minute_over :
    (last t started : ℕ)
    → started ≡ floor_minute last
    → last ≤ t
    → started ≢ floor_minute t
    → started + minute_us ≤ t
unfolding floor_minute
minute_over last t started e le ne = omega arith

pub later_minute :
    (last t started : ℕ)
    → started ≡ floor_minute last
    → last ≤ t
    → started ≢ floor_minute t
    → started + minute_us ≤ floor_minute t
unfolding floor_minute
later_minute last t started e le ne = omega arith
