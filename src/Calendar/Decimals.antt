-- ===== src/Calendar/Decimals.antt =====
-- A decimal number has digits alone, and stands for one number.
use dklibrary.Common.{
  ℕ, zero, suc, ◌+◌, ◌-◌, ◌*◌, ◌/◌, ◌%◌, ◌<◌, ◌≡◌, ◌≢◌, ◌⊎◌, inl, inr, ap, sym, ◌∙◌, arith, List,
  [], ◌∷◌, ltb, Bool-cases, ltb→lt, lt→ltb,
}
use dklibrary.Calendar.{decimal, decimal_from}

-- The number that digits stand for, behind those that make `v`.
abbrev value : ℕ → List ℕ → ℕ
value v [] = v
value v (c ∷ digits) = value (v * 10 + (c - 48)) digits

-- The fuel does for the number.
abbrev Fits : ℕ → ℕ → Type 0
Fits zero n = ⊥
Fits (suc fuel) n = (n < 10) ⊎ Fits fuel (n / 10)

value-decimal_from :
    (fuel n : ℕ) (digits : List ℕ)
    → Fits fuel n
    → value 0 (decimal_from fuel n digits) ≡ value n digits
unfolding decimal_from
value-decimal_from zero n digits h = absurd h
value-decimal_from (suc fuel) n digits (inl short) =
    rw (lt→ltb n 10 short) (ap (λ v. value v digits) (omega arith))
value-decimal_from (suc fuel) n digits (inr fits) = elim (Bool-cases (ltb n 10)) [
  | inl short ↦ rw short (ap (λ v. value v digits) (omega arith))
  | inr long ↦
      let digit : n / 10 * 10 + (48 + n % 10 - 48) ≡ n = omega arith in
      rw long (
        value-decimal_from fuel (n / 10) ((48 + n % 10) ∷ digits) fits
        ∙ ap (λ v. value v digits) digit)
]

pub decimal_injective : (m n : ℕ) → m < 100000 → n < 100000 → decimal m ≡ decimal n → m ≡ n
unfolding decimal
decimal_injective m n h k same =
    sym (value-decimal_from 20 m [] (enough m h))
    ∙ ap (value 0) same
    ∙ value-decimal_from 20 n [] (enough n k)
  where
    enough : (n : ℕ) → n < 100000 → Fits 20 n
    enough n h = inr (inr (inr (inr (inl (omega arith)))))

-- No character of a number is `c`.
abbrev pub Without : ℕ → List ℕ → Type 0
Without c [] = Unit
Without c (x ∷ text) = (x ≢ c) × Without c text

not_colon : (n : ℕ) → n < 10 → 48 + n ≢ 58
not_colon n h e = omega arith

decimal_from-Without :
    (fuel n : ℕ) (digits : List ℕ) → Without 58 digits → Without 58 (decimal_from fuel n digits)
unfolding decimal_from
decimal_from-Without zero n digits h = h
decimal_from-Without (suc fuel) n digits h = elim (Bool-cases (ltb n 10)) [
  | inl short ↦ rw short (not_colon n (ltb→lt n 10 short), h)
  | inr long ↦ rw long (
      decimal_from-Without fuel (n / 10) ((48 + n % 10) ∷ digits)
        (not_colon (n % 10) (omega arith), h))
]

pub decimal-Without : (n : ℕ) → Without 58 (decimal n)
unfolding decimal
decimal-Without n = decimal_from-Without 20 n [] tt
