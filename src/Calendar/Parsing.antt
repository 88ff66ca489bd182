-- ===== src/Calendar/Parsing.antt =====
-- A time in the format of the code, "%Y-%m-%d %H:%M:%S": what is printed is read again.
use dklibrary.Common.{ℕ, ◌+◌, ◌-◌, ◌≤◌, ◌<◌, ◌≡◌, refl, ap, arith, List, [], ◌∷◌, ◌++◌, some}
use dklibrary.Common.Integer.{ℤ, pos, ◌+ℤ◌}
use dklibrary.Calendar.{
  Tm, Spec, year, month, day, hour, minute, second, char, date_time, full_year, since_1900, padded,
  padded_int, zeros, print, print_all, read_spec, get_time, match_char, skip_blanks, with_number,
  with_rest,
}
use dklibrary.Calendar.Digits.{
  two_digits, four_digits, decimal_four, padded_int_two, get_number-two, get_number-four,
}

-- A point of time by its numbers, as they are printed.
pub record Stamp : Type 0 where
  pub y : ℕ
  pub m : ℕ
  pub d : ℕ
  pub hh : ℕ
  pub mm : ℕ
  pub ss : ℕ

pub record IsStamp (t : Stamp) : Type 0 where
  pub four : t.y < 10000
  pub month_from : 1 ≤ t.m
  pub month_to : t.m ≤ 12
  pub day_from : 1 ≤ t.d
  pub day_to : t.d ≤ 31
  pub hours : t.hh ≤ 23
  pub minutes : t.mm ≤ 59
  pub seconds : t.ss ≤ 60

abbrev pub tm_of : Stamp → Tm
tm_of t = record {
  year = since_1900 (pos t.y);
  mon = pos (t.m - 1);
  mday = pos t.d;
  hour = pos t.hh;
  min = pos t.mm;
  sec = pos t.ss;
  isdst = pos 0;
}

-- What each part of a format prints, and what reading it back sets.
abbrev pub part : Spec → Stamp → List ℕ
part year t = four_digits t.y
part month t = two_digits t.m
part day t = two_digits t.d
part hour t = two_digits t.hh
part minute t = two_digits t.mm
part second t = two_digits t.ss
part (char c) t = c ∷ []

abbrev pub stamp_text : List Spec → Stamp → List ℕ
stamp_text [] t = []
stamp_text (spec ∷ format) t = part spec t ++ stamp_text format t

abbrev set_part : Spec → Stamp → Tm → Tm
set_part year t tm = record tm { year = since_1900 (pos t.y) }
set_part month t tm = record tm { mon = pos (t.m - 1) }
set_part day t tm = record tm { mday = pos t.d }
set_part hour t tm = record tm { hour = pos t.hh }
set_part minute t tm = record tm { min = pos t.mm }
set_part second t tm = record tm { sec = pos t.ss }
set_part (char c) t tm = tm

abbrev set_parts : List Spec → Stamp → Tm → Tm
set_parts [] t tm = tm
set_parts (spec ∷ format) t tm = set_parts format t (set_part spec t tm)

full_year-since_1900 : (y : ℕ) → full_year (since_1900 (pos y)) ≡ pos y
full_year-since_1900 y = ground arith

month_number : (m : ℕ) → 1 ≤ m → pos (m - 1) +ℤ pos 1 ≡ pos m
month_number m h = ground arith

print_year :
    (t : Stamp) (tm : Tm)
    → tm.year ≡ since_1900 (pos t.y)
    → 1000 ≤ t.y
    → t.y < 10000
    → print year tm ≡ four_digits t.y
unfolding print padded_int padded zeros
print_year t tm set h k = rw (set, full_year-since_1900 t.y, decimal_four t.y h k)

print_month :
    (m : ℕ) (tm : Tm) → tm.mon ≡ pos (m - 1) → 1 ≤ m → m ≤ 12 → print month tm ≡ two_digits m
unfolding print
print_month m tm set h k = rw (set, month_number m h) (padded_int_two m (omega arith))

no_blank : (n : ℕ) (rest : List ℕ) → skip_blanks ((48 + n) ∷ rest) ≡ (48 + n) ∷ rest
unfolding skip_blanks
no_blank n rest = ground arith

match_own : (c : ℕ) (rest : List ℕ) → skip_blanks rest ≡ rest → match_char c (c ∷ rest) ≡ some rest
unfolding match_char skip_blanks
match_own c rest h = ground (arith, h)

module _ (t : Stamp) (v : IsStamp t) where
  print-part :
      (spec : Spec) (dst : ℤ)
      → 1000 ≤ t.y
      → print spec (record (tm_of t) { isdst = dst }) ≡ part spec t
  unfolding print
  print-part year dst h = print_year t (record (tm_of t) { isdst = dst }) refl h v.four
  print-part month dst h =
      print_month t.m (record (tm_of t) { isdst = dst }) refl v.month_from v.month_to
  print-part day dst h = padded_int_two t.d (omega (arith, v.day_to))
  print-part hour dst h = padded_int_two t.hh (omega (arith, v.hours))
  print-part minute dst h = padded_int_two t.mm (omega (arith, v.minutes))
  print-part second dst h = padded_int_two t.ss (omega (arith, v.seconds))
  print-part (char c) dst h = refl

  -- The members are printed with two digits each, and the year with four.
  pub print_stamp :
      (format : List Spec) (dst : ℤ)
      → 1000 ≤ t.y
      → print_all format (record (tm_of t) { isdst = dst }) ≡ stamp_text format t
  unfolding print_all
  print_stamp [] dst h = refl
  print_stamp (spec ∷ format) dst h = rw (print-part spec dst h, print_stamp format dst h)

  -- A blank of the format skips all blanks, of which the rest has none.
  abbrev Settled : Spec → List ℕ → Type 0
  Settled (char c) rest = skip_blanks rest ≡ rest
  Settled _ rest = Unit

  read_part :
      (spec : Spec) (tm : Tm) (rest : List ℕ)
      → Settled spec rest
      → read_spec spec tm (part spec t ++ rest) ≡ some (set_part spec t tm, rest)
  unfolding read_spec
  read_part year tm rest h =
      ap (λ o. with_number o (λ n. record tm { year = since_1900 (pos n) }))
        (get_number-four 0 9999 t.y rest v.four (omega arith) (omega arith))
  read_part month tm rest h =
      ap (λ o. with_number o (λ n. record tm { mon = pos (n - 1) }))
        (get_number-two 1 12 t.m rest (omega (arith, v.month_to)) v.month_from v.month_to)
  read_part day tm rest h =
      ap (λ o. with_number o (λ n. record tm { mday = pos n }))
        (get_number-two 1 31 t.d rest (omega (arith, v.day_to)) v.day_from v.day_to)
  read_part hour tm rest h =
      ap (λ o. with_number o (λ n. record tm { hour = pos n }))
        (get_number-two 0 23 t.hh rest (omega (arith, v.hours)) (omega arith) v.hours)
  read_part minute tm rest h =
      ap (λ o. with_number o (λ n. record tm { min = pos n }))
        (get_number-two 0 59 t.mm rest (omega (arith, v.minutes)) (omega arith) v.minutes)
  read_part second tm rest h =
      ap (λ o. with_number o (λ n. record tm { sec = pos n }))
        (get_number-two 0 60 t.ss rest (omega (arith, v.seconds)) (omega arith) v.seconds)
  read_part (char c) tm rest h = ap (λ o. with_rest o tm) (match_own c rest h)

  abbrev AllSettled : List Spec → Type 0
  AllSettled [] = Unit
  AllSettled (spec ∷ format) = Settled spec (stamp_text format t) × AllSettled format

  read_stamp :
      (format : List Spec) (tm : Tm)
      → AllSettled format
      → get_time format tm (stamp_text format t) ≡ set_parts format t tm
  unfolding get_time
  read_stamp [] tm h = refl
  read_stamp (spec ∷ format) tm (h, hs) =
      rw (get_time, read_part spec tm (stamp_text format t) h)
        (read_stamp format (set_part spec t tm) hs)

  -- What is printed in the format of the code is read again, whatever was in the tm but its isdst.
  pub read_date_time :
      (tm : Tm)
      → get_time date_time tm (stamp_text date_time t) ≡ record (tm_of t) { isdst = tm.isdst }
  unfolding skip_blanks
  read_date_time tm = read_stamp date_time tm (
    tt,
    (
      no_blank _ _,
      (
        tt,
        (no_blank _ _, (tt, (no_blank _ _, (tt, (no_blank _ _, (tt, (no_blank _ _, (tt, tt)))))))),
      ),
    ),
  )
