-- ===== src/Date/Texts.antt =====
-- The texts of a date, and its way to a Time and back.
use dklibrary.Common.{
  List, throws, stuck, zero, suc, refl, ℕ, ◌-◌, ◌≤◌, ◌<◌, ◌≡◌, ap, sym, ◌∙◌, arith, ◌∷◌, ◌++◌,
}
use dklibrary.Common.Integer.{ℤ, pos, negsuc, ◌+ℤ◌}
use dklibrary.Calendar.{Tm, no_tm, Zone, since_1900, full_year}
use dklibrary.Calendar.Digits.{two_digits, four_digits, padded_int_two, padded_int_four}
use dklibrary.Calendar.Parsing.{Stamp, IsStamp, tm_of}
use dklibrary.KTime.{of_text, of_time_t}
use dklibrary.KTime.Texts.{of_text_lem}
use dklibrary.Date.{
  Date, from_date_string, to_date_string, to_date_time_string, to_time_t, from_time_t, midnight,
}

abbrev pub date_of : ℕ → ℕ → ℕ → Date
date_of y m d = record { year = pos y; month = pos m; day = pos d }

abbrev pub midnight_of : ℕ → ℕ → ℕ → Stamp
midnight_of y m d = record { y = y; m = m; d = d; hh = 0; mm = 0; ss = 0 }

to_date_string_lem :
    (y m d : ℕ)
    → y < 10000
    → m < 100
    → d < 100
    → to_date_string (date_of y m d) ≡ four_digits y ++ (45 ∷ (two_digits m ++ (45 ∷ two_digits d)))
unfolding to_date_string
to_date_string_lem y m d h k l = rw (padded_int_four y h, padded_int_two m k, padded_int_two d l)

month_before : (m : ℕ) → 1 ≤ m → pos m +ℤ negsuc 0 ≡ pos (m - 1)
month_before m h = ground arith

full_year-since_1900 : (z : ℤ) → full_year (since_1900 z) ≡ z
full_year-since_1900 (pos n) = ground arith
full_year-since_1900 (negsuc n) = ground arith

next_month : (z : ℤ) → (z +ℤ negsuc 0) +ℤ pos 1 ≡ z
next_month (pos n) = ground arith
next_month (negsuc n) = ground arith

-- A Time that is made from the text of a date, at midnight, is the Time that is made from what
-- to_time_t gives for the date, which is 0 where to_time_t gives a negative number: for the years 0
-- to 9999, the months 1 to 12 and the days 1 to 31, whatever the time zone.
pub of_text-to_date_time_string :
    (zone : Zone) (y m d : ℕ)
    → IsStamp (midnight_of y m d)
    → of_text zone (to_date_time_string (date_of y m d))
      ≡ of_time_t (to_time_t zone (date_of y m d))
unfolding to_date_time_string to_time_t
of_text-to_date_time_string zone y m d v =
    ap (λ text. of_text zone (text ++ midnight))
      (to_date_string_lem y m d v.four (omega (arith, v.month_to)) (omega (arith, v.day_to)))
    ∙ of_text_lem zone (midnight_of y m d) v
    ∙ ap (λ mon. of_time_t (zone.mktime (record (tm_of (midnight_of y m d)) { mon = mon })))
        (sym (month_before m v.month_from))

-- The std::tm that to_time_t gives to mktime.
abbrev pub tm_of_date : Date → Tm
tm_of_date d = record no_tm { year = since_1900 d.year; mon = d.month +ℤ negsuc 0; mday = d.day }

-- from_time_t takes to_time_t back: for every date whose midnight the zone's localtime gives back
-- from mktime, with any tm_isdst.
pub from_time_t-to_time_t :
    (zone : Zone) (d : Date) (dst : ℤ)
    → zone.localtime (zone.mktime (tm_of_date d)) ≡ record (tm_of_date d) { isdst = dst }
    → from_time_t zone (to_time_t zone d) ≡ d
unfolding from_time_t to_time_t
from_time_t-to_time_t zone d dst law =
    ap (λ tm. record { year = full_year tm.year; month = tm.mon +ℤ pos 1; day = tm.mday }) law
    ∙ (λ i. record {
      year = full_year-since_1900 d.year i;
      month = next_month d.month i;
      day = d.day;
    })

-- fromDateString does not end: however deep its calls are followed, none has returned.
pub from_date_string-stuck :
    (fuel : ℕ) (text : List ℕ) (d : Date) → from_date_string fuel text d ≡ throws stuck d
unfolding from_date_string
from_date_string-stuck zero text d = refl
from_date_string-stuck (suc fuel) text d = cc (from_date_string-stuck fuel text d)
