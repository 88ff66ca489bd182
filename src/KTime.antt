-- ===== src/KTime.antt =====
-- LibraryBase/KTime.h and .cpp: a time in seconds. The time zone is a parameter.
pub mod Clamping
pub mod Texts
use dklibrary.Common.{ℕ, List, Option, Bool, true, false, not, if◌then◌else◌}
use dklibrary.Calendar.{Tm, no_tm, Zone, date_time, strftime, get_time}
use dklibrary.Common.Integer.{ℤ, pos, negsuc, ltz}

pub record Time : Type 0 where
  pub seconds : ℤ

-- Time() and Time(time_t), with std::max
abbrev pub zero_time : Time
zero_time = record { seconds = pos 0 }

unfoldable pub of_time_t : ℤ → Time
of_time_t t = record { seconds = if ltz t (pos 0) then pos 0 else t }

-- Time(const Time&)
abbrev pub copy : Time → Time
copy time = record { seconds = time.seconds }

-- Time(time_point), from what system_clock::to_time_t gives: the body makes another Time, which it
-- drops, and leaves m_time as the class initialises it.
unfoldable pub of_time_point : ℤ → Time
unfolding of_time_t
of_time_point t = let dropped = of_time_t t in zero_time

-- to_time_t
abbrev pub to_time_t : Time → ℤ
to_time_t time = time.seconds

-- operator< and operator<=
unfoldable pub earlier : Time → Time → Bool
earlier t u = ltz t.seconds u.seconds

unfoldable pub earlier_or_same : Time → Time → Bool
earlier_or_same t u = not (ltz u.seconds t.seconds)

-- system_clock::from_time_t, of whole seconds
abbrev pub to_time_point : Time → ℤ
to_time_point time = time.seconds

-- now(), from what ::time(nullptr) gives
unfoldable pub now : ℤ → Time
unfolding of_time_t
now clock = of_time_t clock

-- to_tm(const std::string&): std::get_time on a stringstream
unfoldable pub text_to_tm : List ℕ → Tm
text_to_tm text = get_time date_time no_tm text

module _ (zone : Zone) where
  -- to_tm(time_t) and to_tm()
  unfoldable pub time_t_to_tm : ℤ → Tm
  time_t_to_tm t = zone.localtime t

  unfoldable pub to_tm : Time → Tm
  unfolding time_t_to_tm
  to_tm time = time_t_to_tm time.seconds

  -- toString, into a buffer of 20 bytes
  unfoldable pub to_string : Time → Option (List ℕ)
  unfolding to_tm
  to_string time = strftime 20 date_time (to_tm time)

  -- Time(tm) and Time(string)
  unfoldable pub of_tm : Tm → Time
  unfolding of_time_t
  of_tm tm = of_time_t (zone.mktime tm)

  unfoldable pub of_text : List ℕ → Time
  unfolding of_tm text_to_tm
  of_text text = of_tm (text_to_tm text)
