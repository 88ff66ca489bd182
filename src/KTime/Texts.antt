-- ===== src/KTime/Texts.antt =====
-- The text of a time, read again.
use dklibrary.Common.{ℕ, ◌≤◌, ◌≡◌, ap, ◌∙◌, arith, List, some}
use dklibrary.Common.Integer.{ℤ, pos}
use dklibrary.Calendar.{Zone, date_time, strftime, no_tm}
use dklibrary.Calendar.Parsing.{Stamp, IsStamp, tm_of, stamp_text, print_stamp, read_date_time}
use dklibrary.KTime.{to_string, of_text, of_tm, of_time_t}

pub not_clamped : (n : ℕ) → of_time_t (pos n) ≡ record { seconds = pos n }
unfolding of_time_t
not_clamped n = ground arith

pub strftime_stamp :
    (t : Stamp) (dst : ℤ)
    → IsStamp t
    → 1000 ≤ t.y
    → strftime 20 date_time (record (tm_of t) { isdst = dst }) ≡ some (stamp_text date_time t)
unfolding strftime
strftime_stamp t dst v h = rw (print_stamp t v date_time dst h)

pub of_text_lem :
    (zone : Zone) (t : Stamp)
    → IsStamp t
    → of_text zone (stamp_text date_time t) ≡ of_time_t (zone.mktime (tm_of t))
unfolding of_text
of_text_lem zone t v = ap (of_tm zone) (read_date_time t v no_tm)

-- toString gives a text that fits its buffer, and Time(string) of that text is the time again: at
-- times of the years 1000 to 9999 at which the zone's localtime gives the members of `t` and its
-- mktime takes these back, with tm_isdst 0 as the text does not have it.
pub of_text-to_string :
    (zone : Zone) (n : ℕ) (t : Stamp) (dst : ℤ)
    → IsStamp t
    → 1000 ≤ t.y
    → zone.localtime (pos n) ≡ record (tm_of t) { isdst = dst }
    → zone.mktime (tm_of t) ≡ pos n
    → (text : List ℕ) × (to_string zone (record { seconds = pos n }) ≡ some text)
      × (of_text zone text ≡ record { seconds = pos n })
unfolding to_string
of_text-to_string zone n t dst v h local back = (
  stamp_text date_time t,
  ap (strftime 20 date_time) local ∙ strftime_stamp t dst v h,
  of_text_lem zone t v ∙ ap of_time_t back ∙ not_clamped n,
)
