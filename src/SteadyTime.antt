-- ===== src/SteadyTime.antt =====
-- LibraryBase/SteadyTime.h and .cpp: a point of the steady clock. The readings of the two clocks are
-- arguments: steady_clock::now() in nanoseconds, and system_clock::now() in the ticks of that clock.
-- The durations are int64_t; a result of `none` is the overflow of one, which is undefined.
pub mod Clocks
use dklibrary.Common.{ℕ, zero, suc, ◌*◌, ◌≡◌, Bool, not, ◌&&◌, if◌then◌else◌, Option, some, none}
use dklibrary.Common.Integer.{ℤ, pos, negsuc, ltz, eqz, ◌-ℤ◌, negate, scale, trunc}
use dklibrary.KTime
use dklibrary.KTime.{Time}

-- m_timepoint
pub record SteadyTime : Type 0 where
  pub timepoint : ℤ

-- The duration of system_clock, which the C++ library chooses: the nanoseconds of a tick, and the
-- ticks of a second.
pub record SystemClock : Type 0 where
  pub nanoseconds : ℕ
  pub per_second : ℕ
  pub whole : nanoseconds * per_second ≡ 1000000000

-- The nanoseconds of a second.
abbrev pub second : ℕ
second = 1000000000

abbrev pub fits_int64 : ℤ → Bool
fits_int64 z = not (ltz z (negsuc 9223372036854775807)) && ltz z (pos 9223372036854775808)

-- A result of the arithmetic on int64_t, handed on where it does not overflow.
abbrev pub checked : {A : Type 0} → ℤ → (ℤ → Option A) → Option A
checked z next = if fits_int64 z then next z else none

-- SteadyTime() and SteadyTime(const SteadyTime&)
abbrev pub no_time : SteadyTime
no_time = record { timepoint = pos 0 }

abbrev pub copy : SteadyTime → SteadyTime
copy time = record { timepoint = time.timepoint }

-- operator bool
unfoldable pub is_set : SteadyTime → Bool
is_set time = not (eqz time.timepoint (pos 0))

unfoldable pub difference : ℤ → SteadyTime → Option ℤ
difference steady time = checked (steady -ℤ time.timepoint) (λ passed. some passed)

-- duration_cast to seconds cuts towards zero.
unfoldable pub time_elapsed : ℤ → SteadyTime → Option ℤ
unfolding difference
time_elapsed steady time = elim (difference steady time) [
  | none ↦ none
  | some passed ↦ some (trunc second passed)
]

unfoldable pub time_remaining : ℤ → SteadyTime → Option ℤ
unfolding time_elapsed
time_remaining steady time = elim (time_elapsed steady time) [
  | none ↦ none
  | some elapsed ↦ checked (negate elapsed) (λ remaining. some remaining)
]

module _ (clock : SystemClock) where
  -- SteadyTime(const Time&): from_time_t makes ticks of the seconds, and the ticks that have passed
  -- since are made nanoseconds to be taken off the reading of the steady clock.
  unfoldable pub of_time : ℤ → ℤ → Time → Option SteadyTime
  of_time steady system time = checked (scale clock.per_second (KTime.to_time_point time)) (λ point.
      checked (system -ℤ point) (λ ago.
        checked (scale clock.nanoseconds ago) (λ span.
          checked (steady -ℤ span) (λ timepoint. some (record { timepoint = timepoint })))))

  -- duration_cast to system_clock::duration cuts to whole ticks, towards zero, and
  -- system_clock::to_time_t to whole seconds.
  unfoldable pub to_time_t : ℤ → ℤ → SteadyTime → Option ℤ
  unfolding difference
  to_time_t steady system time = elim (difference steady time) [
    | none ↦ none
    | some passed ↦
        checked (system -ℤ trunc clock.nanoseconds passed)
          (λ now. some (trunc clock.per_second now))
  ]
