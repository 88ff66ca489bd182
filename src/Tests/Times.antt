-- ===== src/Tests/Times.antt =====
-- The texts of LibraryBase/KTime.h, Date.h, Utils.cpp and Logger.cpp, and SteadyTime.
use dklibrary.Common.{
  ℕ, ◌≡◌, ◌/◌, refl, arith, List, [], ◌∷◌, ◌++◌, some, none, returns, throws, out_of_range,
}
use dklibrary.Common.Integer.{pos, negsuc, negate}
use dklibrary.Calendar.{strftime, print_all, print, padded_int, padded, zeros, decimal, Zone}
use dklibrary.Calendar.Parsing.{Stamp, IsStamp, tm_of}
use dklibrary.KTime
use dklibrary.KTime.{Time, of_text, of_time_t}
use dklibrary.KTime.Texts.{of_text-to_string}
use dklibrary.Date
use dklibrary.Date.{to_date_string, to_date_string, to_date_time_string}
use dklibrary.Date.Texts.{date_of, midnight_of, of_text-to_date_time_string}
use dklibrary.Utils.{get_time_string, get_time_string_ms, with_millis, prefix_text}
use dklibrary.Utils.Times.{get_time_string_lem}
use dklibrary.Logger.{Logger, warning, log, no_logger}
use dklibrary.Logger.Callbacks.{log_lem}
use dklibrary.SteadyTime.{SteadyTime, SystemClock, of_time, to_time_t, time_elapsed, time_remaining}
use dklibrary.SteadyTime.Clocks.{to_time_t-of_time}

-- 2024-02-29 13:05:09, in a zone that knows this time alone.
abbrev leap : Stamp
leap = record { y = 2024; m = 2; d = 29; hh = 13; mm = 5; ss = 9 }

abbrev only : Zone
only = record { localtime = λ t. tm_of leap; mktime = λ tm. pos 1709211909 }

leap-IsStamp : IsStamp leap
leap-IsStamp = omega arith

abbrev leap_text : List ℕ
leap_text =
    50 ∷ 48 ∷ 50 ∷ 52 ∷ 45 ∷ 48 ∷ 50 ∷ 45 ∷ 50 ∷ 57 ∷ 32 ∷ 49 ∷ 51 ∷ 58 ∷ 48 ∷ 53 ∷ 58 ∷ 48 ∷ 57
    ∷ []

of_text-to_string_example :
    (text : List ℕ) × (KTime.to_string only (record { seconds = pos 1709211909 }) ≡ some text)
    × (of_text only text ≡ record { seconds = pos 1709211909 })
of_text-to_string_example =
    of_text-to_string only 1709211909 leap (pos 0) leap-IsStamp (omega arith) refl refl

-- "0987-12-31" and "13:05:09"
old_date : to_date_string (date_of 987 12 31) ≡ 48 ∷ 57 ∷ 56 ∷ 55 ∷ 45 ∷ 49 ∷ 50 ∷ 45 ∷ 51 ∷ 49 ∷ []
unfolding to_date_string padded_int padded zeros decimal
old_date = refl

-- A year of six digits takes the place of the day.
long_year :
    to_date_string (date_of 123456 7 8) ≡ 49 ∷ 50 ∷ 51 ∷ 52 ∷ 53 ∷ 54 ∷ 45 ∷ 48 ∷ 55 ∷ 45 ∷ []
unfolding to_date_string padded_int padded zeros decimal
long_year = refl

leap_text_lem : KTime.to_string only (record { seconds = pos 0 }) ≡ some leap_text
unfolding KTime.to_string strftime print_all print padded_int padded zeros decimal
leap_text_lem = refl

leap_text_at_clock :
    KTime.to_string only (of_time_t (pos (1709211909123456789 / 1000000000))) ≡ some leap_text
unfolding KTime.to_string strftime print_all print padded_int padded zeros decimal
leap_text_at_clock = refl

midnight-IsStamp : IsStamp (midnight_of 987 12 31)
midnight-IsStamp = omega arith

of_text-to_date_time_string_example :
    of_text only (to_date_time_string (date_of 987 12 31))
    ≡ of_time_t (Date.to_time_t only (date_of 987 12 31))
of_text-to_date_time_string_example = of_text-to_date_time_string only 987 12 31 midnight-IsStamp

get_time_string_lem_example : get_time_string only (pos 1709211909123456789) ≡ some leap_text
get_time_string_lem_example =
    get_time_string_lem only 1709211909123456789 leap_text leap_text_at_clock

-- A millisecond before 1970 the cast to uint32_t makes 4294967295 of the milliseconds, of which three
-- digits stand in the buffer.
before_1970 : get_time_string_ms only (negsuc 999999) ≡ some (leap_text ++ (46 ∷ 52 ∷ 50 ∷ 57 ∷ []))
unfolding get_time_string_ms with_millis strftime print_all print padded_int padded zeros decimal
before_1970 = refl

abbrev logger : Logger
logger = no_logger

-- "/" and "c.h", from the function "f"
log_lem_example :
    (log 70000 warning
        (102 ∷ [])
        (99 ∷ 46 ∷ 104 ∷ [])
        12
        (33 ∷ [])
        (record logger { callback = none })
      ≡ returns tt (record logger { callback = none }))
    × (log 70000 warning
          (102 ∷ [])
          (97 ∷ 47 ∷ 99 ∷ 46 ∷ 104 ∷ [])
          12
          (33 ∷ [])
          (record logger { callback = some 1 })
        ≡ returns tt (record {
          callback = some 1;
          calls =
              record {
                callback = 1;
                level = warning;
                text = prefix_text 70000 (102 ∷ []) (47 ∷ 99 ∷ 46 ∷ 104 ∷ []) 12 ++ (9 ∷ 33 ∷ []);
              }
              ∷ [];
        }))
    × (log 70000 warning
          (102 ∷ [])
          (99 ∷ 46 ∷ 104 ∷ [])
          12
          (33 ∷ [])
          (record logger { callback = some 1 })
        ≡ throws out_of_range (record logger { callback = some 1 }))
log_lem_example =
    log_lem logger 1 70000 12 warning (102 ∷ []) (97 ∷ []) (99 ∷ 46 ∷ 104 ∷ []) (33 ∷ []) 47 refl
      (refl, (refl, (refl, tt)))

-- A system clock of ticks of 100 nanoseconds, 90000 ticks after 1970, and the Time 2, which is still to
-- come; 50 ticks later.
abbrev hundreds : SystemClock
hundreds = record { nanoseconds = 100; per_second = 10000000; whole = refl }

to_time_t-of_time_example :
    (time : SteadyTime) × (of_time hundreds (pos 7) (pos 90000) (record { seconds = pos 2 })
      ≡ some time)
    × (to_time_t hundreds (pos 5007) (pos 90050) time ≡ some (pos 2))
    × (time_elapsed (pos 5007) time ≡ some (negate (pos 1)))
    × (time_remaining (pos 5007) time ≡ some (pos 1))
to_time_t-of_time_example =
    to_time_t-of_time hundreds 7 90000 2 50 (omega arith) (omega arith) (omega arith)

abbrev early : SteadyTime
early = record { timepoint = pos 1991000007 }

-- The SteadyTime above, a nanosecond later on the steady clock: the cut to ticks
-- is towards zero, and to_time_t gives a second less.
cut_short : to_time_t hundreds (pos 5008) (pos 90050) early ≡ some (pos 1)
unfolding to_time_t
cut_short = refl

of_time_overflows :
    of_time hundreds (pos 0) (pos 0) (record { seconds = pos 9223372036854775807 }) ≡ none
unfolding of_time
of_time_overflows = refl
