-- ===== src/Date.antt =====
-- LibraryBase/Date.h and .cpp: a date as a year, a month and a day, not checked against a calendar.
pub mod Order
pub mod Texts
use dklibrary.Common.{
  Outcome, returns, throws, stuck, zero, suc, ℕ, List, [], ◌∷◌, ◌++◌, take, Bool, true, false, not,
  ◌&&◌, ◌||◌, if◌then◌else◌, Option, some, none,
}
use dklibrary.Calendar.{Zone, no_tm, since_1900, full_year, padded_int}
use dklibrary.Common.Integer.{ℤ, pos, negsuc, ltz, eqz, ◌+ℤ◌}

pub record Date : Type 0 where
  pub year : ℤ
  pub month : ℤ
  pub day : ℤ

-- Date()
abbrev pub epoch : Date
epoch = record { year = pos 1970; month = pos 1; day = pos 1 }

-- Date(year, month, day)
abbrev pub create : ℤ → ℤ → ℤ → Date
create year month day = record { year = year; month = month; day = day }

-- fromDateString makes a copy and calls itself on it with the same text. `fuel` is the depth of the
-- calls that are followed.
pub from_date_string : ℕ → List ℕ → Date → Outcome Date Date
from_date_string zero text d = throws stuck d
from_date_string (suc fuel) text d = elim (from_date_string fuel text d) [
  | returns ignored d' ↦ returns d' d
  | throws e d' ↦ throws e d'
]

-- operator==, operator!=, operator< and operator<=
unfoldable pub same : Date → Date → Bool
same d e = eqz d.year e.year && eqz d.month e.month && eqz d.day e.day

unfoldable pub differs : Date → Date → Bool
unfolding same
differs d e = not (same d e)

unfoldable pub earlier : Date → Date → Bool
earlier d e =
    if not (eqz d.year e.year)
    then ltz d.year e.year
    else if not (eqz d.month e.month)
    then ltz d.month e.month
    else ltz d.day e.day

unfoldable pub earlier_or_same : Date → Date → Bool
unfolding earlier same
earlier_or_same d e = earlier d e || same d e

-- What an int of 32 bits holds.
abbrev pub fits_int : ℤ → Bool
fits_int z = not (ltz z (negsuc 2147483647)) && ltz z (pos 2147483648)

-- daysAfter: only the day changes. None is the overflow of the day, which is undefined.
unfoldable pub days_after : Date → ℤ → Option Date
days_after d days =
    if fits_int (d.day +ℤ days) then some (record d { day = d.day +ℤ days }) else none

unfoldable pub today : Option Date
unfolding days_after
today = days_after epoch (pos 0)

-- toDateString: snprintf into a buffer of 11 bytes cuts the text off after ten.
unfoldable pub to_date_string : Date → List ℕ
to_date_string d =
    take 10 (padded_int 4 d.year ++ (45 ∷ (padded_int 2 d.month ++ (45 ∷ padded_int 2 d.day))))

-- " 00:00:00"
abbrev pub midnight : List ℕ
midnight = 32 ∷ 48 ∷ 48 ∷ 58 ∷ 48 ∷ 48 ∷ 58 ∷ 48 ∷ 48 ∷ []

unfoldable pub to_date_time_string : Date → List ℕ
unfolding to_date_string
to_date_time_string d = to_date_string d ++ midnight

module _ (zone : Zone) where
  -- system_clock::from_time_t and to_time_t, one after the other, leave the seconds as they are.
  unfoldable pub to_time_t : Date → ℤ
  to_time_t d =
      zone.mktime
        (record no_tm { year = since_1900 d.year; mon = d.month +ℤ negsuc 0; mday = d.day })

  unfoldable pub from_time_t : ℤ → Date
  from_time_t time =
      let tm = zone.localtime time in
      record { year = full_year tm.year; month = tm.mon +ℤ pos 1; day = tm.mday }
