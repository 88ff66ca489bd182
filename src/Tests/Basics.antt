-- ===== src/Tests/Basics.antt =====
-- LibraryBase: Date, Time, Utils and Singleton.
use dklibrary.Common.{ℕ, ◌≡◌, refl, true, false, none, some, List, [], ◌∷◌}
use dklibrary.Common.Integer.{pos, negsuc}
use dklibrary.Date.{Date, epoch, earlier, days_after, today}
use dklibrary.Date.Order.{days_after_lem}
use dklibrary.Utils.{file_timestring, log_file_name}
use dklibrary.KTime.{of_time_t, of_time_point}
use dklibrary.Singleton.{construct, destruct}
use dklibrary.Singleton.Lifetime.{
  Program, Reach, IsSingle, initially, next, make, destroy, Reach-IsSingle,
}

abbrev leap_day : Date
leap_day = record { year = pos 2024; month = pos 2; day = pos 29 }

abbrev new_year : Date
new_year = record { year = pos 2025; month = pos 1; day = pos 1 }

epoch_before_leap_day : earlier epoch leap_day ≡ true
unfolding earlier
epoch_before_leap_day = refl

leap_day_before_new_year : earlier leap_day new_year ≡ true
unfolding earlier
leap_day_before_new_year = refl

-- The day after the 29th of February is the 30th of February.
leap_day_next : days_after leap_day (pos 1) ≡ some (record leap_day { day = pos 30 })
unfolding days_after
leap_day_next = refl

today_is_epoch : today ≡ some epoch
unfolding today
today_is_epoch = refl

days_after_lem_example :
    (e : Date) × (days_after leap_day (negsuc 4) ≡ some e)
    × (earlier leap_day e ≡ false)
    × (earlier e leap_day ≡ true)
    × (e.year ≡ pos 2024)
    × (e.month ≡ pos 2)
days_after_lem_example = days_after_lem leap_day (negsuc 4) refl

-- The day after 2147483647 is not a day of an int.
day_overflows : days_after (record leap_day { day = pos 2147483647 }) (pos 1) ≡ none
unfolding days_after
day_overflows = refl

-- "1 0:5"
abbrev clock : List ℕ
clock = 49 ∷ 32 ∷ 48 ∷ 58 ∷ 53 ∷ []

clock_in_file_name : file_timestring clock ≡ 49 ∷ 95 ∷ 48 ∷ 45 ∷ 53 ∷ []
unfolding file_timestring
clock_in_file_name = refl

-- "c.h"
no_separator : log_file_name (99 ∷ 46 ∷ 104 ∷ []) ≡ none
unfolding log_file_name
no_separator = refl

before_1970 : of_time_t (negsuc 3) ≡ of_time_point (pos 60)
unfolding of_time_t of_time_point
before_1970 = refl

-- An object is made, destroyed, and another one made.
abbrev second_life : Program
second_life = record { singleton = some 9; alive = 9 ∷ [] }

second_life-Reach : Reach second_life
unfolding construct destruct
second_life-Reach =
    next (next (next initially (make 4 (some 4) refl)) (destroy 4 [] [] none refl refl))
      (make 9 (some 9) refl)

Reach-IsSingle_example : IsSingle second_life
Reach-IsSingle_example = Reach-IsSingle second_life-Reach
