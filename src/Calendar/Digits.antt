-- ===== src/Calendar/Digits.antt =====
-- Numbers of a fixed width: the digits that are printed, and that the same digits are read.
use dklibrary.Common.{
  ℕ, ◌+◌, ◌*◌, ◌/◌, ◌%◌, ◌≤◌, ◌<◌, ◌≡◌, arith, List, [], ◌∷◌, ◌++◌, ltb, leb, if◌then◌else◌, ◌&&◌,
  some, none, Bool-cases, inl, inr, ltb→lt, ltb→ge,
}
use dklibrary.Common.Integer.{pos}
use dklibrary.Calendar.{padded_int, decimal, padded, zeros, scan, get_number, is_digit}

-- Two and four digits, the leading ones zeros where the number is short.
abbrev pub two_digits : ℕ → List ℕ
two_digits n = (48 + n / 10) ∷ (48 + n % 10) ∷ []

abbrev pub four_digits : ℕ → List ℕ
four_digits n =
    (48 + n / 10 / 10 / 10) ∷ (48 + n / 10 / 10 % 10) ∷ (48 + n / 10 % 10) ∷ (48 + n % 10) ∷ []

decimal_one : (n : ℕ) → n < 10 → decimal n ≡ (48 + n) ∷ []
unfolding decimal
decimal_one n h = ground arith

decimal_two : (n : ℕ) → 10 ≤ n → n < 100 → decimal n ≡ two_digits n
unfolding decimal
decimal_two n h k = ground arith

decimal_three :
    (n : ℕ)
    → 100 ≤ n
    → n < 1000
    → decimal n ≡ (48 + n / 10 / 10) ∷ (48 + n / 10 % 10) ∷ (48 + n % 10) ∷ []
unfolding decimal
decimal_three n h k = ground arith

pub decimal_four : (n : ℕ) → 1000 ≤ n → n < 10000 → decimal n ≡ four_digits n
unfolding decimal
decimal_four n h k = ground arith

pub padded_two : (n : ℕ) → n < 100 → padded 2 n ≡ two_digits n
unfolding padded zeros
padded_two n h = elim (Bool-cases (ltb n 10)) [
  | inl short ↦ rw (decimal_one n (ltb→lt n 10 short)) (short_two n (ltb→lt n 10 short))
  | inr long ↦ rw (decimal_two n (ltb→ge n 10 long) h)
]
  where
    short_two : (n : ℕ) → n < 10 → 48 ∷ (48 + n) ∷ [] ≡ two_digits n
    short_two n h =
        let tens : 48 ≡ 48 + n / 10 = omega arith in
        let ones : 48 + n ≡ 48 + n % 10 = omega arith in cc

pub padded_four : (n : ℕ) → n < 10000 → padded 4 n ≡ four_digits n
unfolding padded zeros
padded_four n h = elim (Bool-cases (ltb n 1000)) [
  | inr long ↦ rw (decimal_four n (ltb→ge n 1000 long) h)
  | inl short ↦ elim (Bool-cases (ltb n 100)) [
    | inr long ↦
        rw (decimal_three n (ltb→ge n 100 long) (ltb→lt n 1000 short))
          (from_three n (ltb→lt n 1000 short))
    | inl short' ↦ elim (Bool-cases (ltb n 10)) [
      | inr long ↦
          rw (decimal_two n (ltb→ge n 10 long) (ltb→lt n 100 short'))
            (from_two n (ltb→lt n 100 short'))
      | inl short'' ↦ rw (decimal_one n (ltb→lt n 10 short'')) (from_one n (ltb→lt n 10 short''))
    ]
  ]
]
  where
    from_three :
        (n : ℕ)
        → n < 1000
        → 48 ∷ (48 + n / 10 / 10) ∷ (48 + n / 10 % 10) ∷ (48 + n % 10) ∷ [] ≡ four_digits n
    from_three n h =
        let thousands : 48 ≡ 48 + n / 10 / 10 / 10 = omega arith in
        let hundreds : 48 + n / 10 / 10 ≡ 48 + n / 10 / 10 % 10 = omega arith in cc

    from_two : (n : ℕ) → n < 100 → 48 ∷ 48 ∷ two_digits n ≡ four_digits n
    from_two n h =
        let thousands : 48 ≡ 48 + n / 10 / 10 / 10 = omega arith in
        let hundreds : 48 ≡ 48 + n / 10 / 10 % 10 = omega arith in
        let tens : 48 + n / 10 ≡ 48 + n / 10 % 10 = omega arith in cc

    from_one : (n : ℕ) → n < 10 → 48 ∷ 48 ∷ 48 ∷ (48 + n) ∷ [] ≡ four_digits n
    from_one n h =
        let thousands : 48 ≡ 48 + n / 10 / 10 / 10 = omega arith in
        let hundreds : 48 ≡ 48 + n / 10 / 10 % 10 = omega arith in
        let tens : 48 ≡ 48 + n / 10 % 10 = omega arith in
        let ones : 48 + n ≡ 48 + n % 10 = omega arith in cc

pub padded_int_two : (n : ℕ) → n < 100 → padded_int 2 (pos n) ≡ two_digits n
unfolding padded_int
padded_int_two n h = padded_two n h

pub padded_int_four : (n : ℕ) → n < 10000 → padded_int 4 (pos n) ≡ four_digits n
unfolding padded_int
padded_int_four n h = padded_four n h

pub scan_two :
    (a b : ℕ) (rest : List ℕ)
    → a < 10
    → b < 10
    → scan 2 0 ((48 + a) ∷ (48 + b) ∷ rest) ≡ (a * 10 + b, rest)
unfolding scan
scan_two a b rest h k = ground arith

pub scan_four :
    (a b c d : ℕ) (rest : List ℕ)
    → a < 10
    → b < 10
    → c < 10
    → d < 10
    → scan 4 0 ((48 + a) ∷ (48 + b) ∷ (48 + c) ∷ (48 + d) ∷ rest)
      ≡ (((a * 10 + b) * 10 + c) * 10 + d, rest)
unfolding scan
scan_four a b c d rest h k l m = ground arith

accepted :
    {A : Type 0} (c low high n : ℕ) (a : A)
    → 48 ≤ c
    → c ≤ 57
    → low ≤ n
    → n ≤ high
    → (if is_digit c && (leb low n && leb n high) then some a else none) ≡ some a
accepted c low high n a h k above below = ground arith

-- A number within its bounds is read off its digits.
pub get_number-two :
    (low high n : ℕ) (rest : List ℕ)
    → n < 100
    → low ≤ n
    → n ≤ high
    → get_number low high 2 (two_digits n ++ rest) ≡ some (n, rest)
unfolding get_number
get_number-two low high n rest h above below =
    let tens : n / 10 < 10 = omega arith in
    let ones : n % 10 < 10 = omega arith in
    let value : n / 10 * 10 + n % 10 ≡ n = omega arith in
    rw (scan_two (n / 10) (n % 10) rest tens ones, value)
      (accepted (48 + n / 10) low high n (n, rest) (omega arith) (omega arith) above below)

pub get_number-four :
    (low high n : ℕ) (rest : List ℕ)
    → n < 10000
    → low ≤ n
    → n ≤ high
    → get_number low high 4 (four_digits n ++ rest) ≡ some (n, rest)
unfolding get_number
get_number-four low high n rest h above below =
    let a : n / 10 / 10 / 10 < 10 = omega arith in
    let b : n / 10 / 10 % 10 < 10 = omega arith in
    let c : n / 10 % 10 < 10 = omega arith in
    let d : n % 10 < 10 = omega arith in
    let value : ((n / 10 / 10 / 10 * 10 + n / 10 / 10 % 10) * 10 + n / 10 % 10) * 10 + n % 10 ≡ n =
      omega arith in
    rw (scan_four _ _ _ _ rest a b c d, value)
      (accepted (48 + n / 10 / 10 / 10) low high n (n, rest) (omega arith) (omega arith) above
        below)
