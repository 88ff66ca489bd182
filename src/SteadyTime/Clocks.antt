-- ===== src/SteadyTime/Clocks.antt =====
-- Between the two clocks.
use native.Mathlib.Nat.{
  mul-add, mul-zero, mul-sub, mul-le-mul_left, mul-le-mul_right, mul-div_right, zero-div, zero-mul,
  mul_comm,
}
use dklibrary.Common.{
  ℕ, zero, suc, ◌+◌, ◌-◌, ◌*◌, ◌/◌, ◌^◌, ◌<◌, ◌≤◌, ◌≡◌, ap, sym, arith, ◌∙◌, true, ltb, Bool-cases,
  inl, inr, ltb→lt, ltb→ge, some, none, refl, Option,
}
use dklibrary.Common.Integer.{ℤ, pos, negsuc, ◌-ℤ◌, negate, scale, trunc}
use dklibrary.SteadyTime.{
  SteadyTime, SystemClock, of_time, to_time_t, time_elapsed, time_remaining, second, fits_int64,
  checked, difference,
}

minus_below : (a b : ℕ) → a ≤ b → pos a -ℤ pos b ≡ negate (pos (b - a))
minus_below a b h = ground arith

minus_above : (a b : ℕ) → b ≤ a → pos a -ℤ pos b ≡ pos (a - b)
minus_above a b h = ground arith

plus_one : (n : ℕ) → n + 1 ≡ suc n
plus_one n = omega arith

scale-negate : (k n : ℕ) → scale k (negate (pos n)) ≡ negate (pos (k * n))
scale-negate k zero = rw (mul-zero k) refl
scale-negate k (suc n) = ap (λ m. negate (pos (k * m))) (plus_one n)

trunc-negate : (k n : ℕ) → 0 < k → trunc k (negate (pos n)) ≡ negate (pos (n / k))
trunc-negate k zero h = ap pos (zero-div k) ∙ ap (λ q. negate (pos q)) (sym (zero-div k))
trunc-negate k (suc n) h = ap (λ m. negate (pos (m / k))) (plus_one n)

minus-scale : (k a b : ℕ) → scale k (pos a -ℤ pos b) ≡ pos (k * a) -ℤ pos (k * b)
minus-scale k a b = elim (Bool-cases (ltb a b)) [
  | inl below ↦
      let less = ltb→lt a b below in
      ap (scale k) (minus_below a b (omega arith))
      ∙ scale-negate k (b - a)
      ∙ ap (λ n. negate (pos n)) (mul-sub k b a)
      ∙ sym (minus_below (k * a) (k * b) (mul-le-mul_left k (omega arith)))
  | inr above ↦
      let least = ltb→ge a b above in
      ap (scale k) (minus_above a b least)
      ∙ ap pos (mul-sub k a b)
      ∙ sym (minus_above (k * a) (k * b) (mul-le-mul_left k least))
]

trunc-scale : (k : ℕ) (z : ℤ) → 0 < k → trunc k (scale k z) ≡ z
trunc-scale k (pos n) positive = ap pos (mul-div_right n positive)
trunc-scale k (negsuc n) positive =
    trunc-negate k (k * (n + 1)) positive
    ∙ ap (λ q. negate (pos q)) (mul-div_right (n + 1) positive)
    ∙ ap (λ m. negate (pos m)) (plus_one n)

fits_pos : (n : ℕ) → n < 2 ^ 63 → fits_int64 (pos n) ≡ true
fits_pos n h = ground arith

fits_minus : (a b : ℕ) → a < 2 ^ 63 → b < 2 ^ 63 → fits_int64 (pos a -ℤ pos b) ≡ true
fits_minus a b ha hb = ground arith

fits_timepoint :
    (a b c : ℕ)
    → a < 2 ^ 61
    → b < 2 ^ 61
    → c < 2 ^ 61
    → fits_int64 (pos a -ℤ (pos b -ℤ pos c)) ≡ true
fits_timepoint a b c ha hb hc = ground arith

cancel : (a b : ℕ) → pos a -ℤ (pos a -ℤ pos b) ≡ pos b
cancel a b = ground arith

since :
    (steady passed system t : ℕ)
    → pos (steady + passed) -ℤ (pos steady -ℤ (pos system -ℤ pos t))
      ≡ pos (system + passed) -ℤ pos t
since steady passed system t = ground arith

fits_quotient : (z : ℤ) → fits_int64 z ≡ true → fits_int64 (negate (trunc second z)) ≡ true
fits_quotient (pos n) h = ground arith
fits_quotient (negsuc n) h = ground arith

checked-fits :
    {A : Type 0} (z : ℤ) (next : ℤ → Option A) → fits_int64 z ≡ true → checked z next ≡ next z
checked-fits z next h = rw h refl

positive_left : (a b : ℕ) → a * b ≡ second → 0 < a
positive_left zero b h = omega (arith, zero-mul b)
positive_left (suc a) b h = omega arith

positive_right : (a b : ℕ) → a * b ≡ second → 0 < b
positive_right a b h = positive_left b a (mul_comm b a ∙ h)

le-mul : (k n : ℕ) → 0 < k → n ≤ k * n
le-mul k n h = omega (arith, mul-le-mul_right n (let least : 1 ≤ k = omega arith in least))

module _ (clock : SystemClock) (steady system t passed : ℕ) where
  abbrev ns : ℕ
  ns = clock.nanoseconds

  abbrev ticks : ℕ
  ticks = clock.per_second * t

  -- The point of the steady clock that stands for the Time.
  abbrev made : SteadyTime
  made = record { timepoint = pos steady -ℤ (pos (ns * system) -ℤ pos (ns * ticks)) }

  made_lem :
      ns * ticks < 2 ^ 61
      → ns * system < 2 ^ 61
      → steady < 2 ^ 61
      → of_time clock (pos steady) (pos system) (record { seconds = pos t }) ≡ some made
  unfolding of_time
  made_lem ht hs hst =
      let positive = positive_left ns clock.per_second clock.whole in
      let point = le-mul ns ticks positive in
      let reading = le-mul ns system positive in
      let span = minus-scale ns system ticks in
      let at : ℤ → Option SteadyTime = λ timepoint. some (record { timepoint = timepoint }) in
      let from_span : ℤ → Option SteadyTime = λ z. checked (pos steady -ℤ z) at in
      let from_ago : ℤ → Option SteadyTime = λ ago. checked (scale ns ago) from_span in
      let from_point : ℤ → Option SteadyTime = λ point. checked (pos system -ℤ point) from_ago in
      checked-fits (pos ticks) from_point (fits_pos ticks (omega arith))
      ∙ checked-fits (pos system -ℤ pos ticks) from_ago
          (fits_minus system ticks (omega arith) (omega arith))
      ∙ checked-fits (scale ns (pos system -ℤ pos ticks)) from_span
          (ap fits_int64 span ∙ fits_minus (ns * system) (ns * ticks) (omega arith) (omega arith))
      ∙ checked-fits (pos steady -ℤ scale ns (pos system -ℤ pos ticks)) at (
          ap (λ z. fits_int64 (pos steady -ℤ z)) span
          ∙ fits_timepoint steady (ns * system) (ns * ticks) hst hs ht)
      ∙ ap (λ z. some (record { timepoint = pos steady -ℤ z })) span

  elapses :
      pos (steady + ns * passed) -ℤ made.timepoint ≡ scale ns (pos (system + passed) -ℤ pos ticks)
  elapses =
      since steady (ns * passed) (ns * system) (ns * ticks)
      ∙ ap (λ n. pos n -ℤ pos (ns * ticks)) (sym (mul-add ns system passed))
      ∙ sym (minus-scale ns (system + passed) ticks)

  difference_lem :
      ns * ticks < 2 ^ 61
      → ns * (system + passed) < 2 ^ 61
      → difference (pos (steady + ns * passed)) made
        ≡ some (scale ns (pos (system + passed) -ℤ pos ticks))
  unfolding difference
  difference_lem ht hs =
      checked-fits (pos (steady + ns * passed) -ℤ made.timepoint) (λ z. some z)
        (ap fits_int64 (elapses ∙ minus-scale ns (system + passed) ticks)
          ∙ fits_minus (ns * (system + passed)) (ns * ticks) (omega arith) (omega arith))
      ∙ ap some elapses

-- A SteadyTime that was made from a Time at one moment stands for it at every later moment, where the
-- two clocks have gone forward by one whole number of ticks of the system clock: to_time_t gives the
-- Time's seconds, timeElapsed the whole seconds of the system clock since then, negative before it,
-- and tiemRemaining its negative. The readings of both clocks and the Time are from 1970 on and below
-- 2 ^ 61 nanoseconds, so that no duration overflows.
pub to_time_t-of_time :
    (clock : SystemClock) (steady system t passed : ℕ)
    → clock.nanoseconds * (clock.per_second * t) < 2 ^ 61
    → clock.nanoseconds * (system + passed) < 2 ^ 61
    → steady < 2 ^ 61
    → (time : SteadyTime) × (of_time clock (pos steady) (pos system) (record { seconds = pos t })
        ≡ some time)
      × (to_time_t clock (pos (steady + clock.nanoseconds * passed)) (pos (system + passed)) time
          ≡ some (pos t))
      × (time_elapsed (pos (steady + clock.nanoseconds * passed)) time
          ≡ some (
              trunc second
                (scale clock.nanoseconds (pos (system + passed) -ℤ pos (clock.per_second * t)))))
      × (time_remaining (pos (steady + clock.nanoseconds * passed)) time
          ≡ some (
              negate (
                trunc second
                  (scale clock.nanoseconds (pos (system + passed) -ℤ pos (clock.per_second * t))))))
unfolding to_time_t time_remaining
to_time_t-of_time clock steady system t passed ht hs hst =
    let k = clock.nanoseconds in
    let ticks = clock.per_second * t in
    let positive = positive_left k clock.per_second clock.whole in
    let point = le-mul k ticks positive in
    let later =
      mul-le-mul_left k (let no_less : system ≤ system + passed = omega arith in no_less) in
    let since_then = pos (system + passed) -ℤ pos ticks in
    let same = difference_lem clock steady system t passed ht hs in
    let at_seconds : ℤ → Option ℤ = λ now. some (trunc clock.per_second now) in
    let after : ℤ → Option ℤ = λ z. checked (pos (system + passed) -ℤ trunc k z) at_seconds in
    let seconds : ℤ → Option ℤ = λ z. some (trunc second z) in
    let back : ℤ → Option ℤ = λ z. checked (negate z) (λ remaining. some remaining) in
    let elapsed = ap (λ o. elim o [ none ↦ none | some z ↦ seconds z ]) same in
    let fits =
      ap fits_int64 (minus-scale k (system + passed) ticks)
      ∙ fits_minus (k * (system + passed)) (k * ticks) (omega arith) (omega arith) in
    let same_point : pos (system + passed) -ℤ trunc k (scale k since_then) ≡ pos ticks =
      ap (λ z. pos (system + passed) -ℤ z) (trunc-scale k since_then positive)
      ∙ cancel (system + passed) ticks in
    (
      made clock steady system t passed,
      made_lem clock steady system t passed ht (omega arith) hst,
      ap (λ o. elim o [ none ↦ none | some z ↦ after z ]) same
          ∙ ap (λ z. checked z at_seconds) same_point
          ∙ checked-fits (pos ticks) at_seconds (fits_pos ticks (omega arith))
          ∙ ap (λ n. some (pos n))
              (mul-div_right t (positive_right k clock.per_second clock.whole)),
      elapsed,
      ap (λ o. elim o [ none ↦ none | some z ↦ back z ]) elapsed
          ∙ checked-fits (negate (trunc second (scale k since_then))) (λ z. some z)
              (fits_quotient (scale k since_then) fits),
    )
