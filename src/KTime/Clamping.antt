-- ===== src/KTime/Clamping.antt =====
-- Times before 1970.
use dklibrary.Common.{◌≡◌, arith, false, not, ◌&&◌, ◌||◌}
use dklibrary.Common.Integer.{ℤ, pos, negsuc, ltz}
use dklibrary.KTime.{of_time_t, of_time_point, earlier, earlier_or_same}

-- Time(time_t) takes what is before 1970 for its start: of two times so made the first is earlier
-- exactly where its number is the lesser and the second's is positive, and operator<= answers true
-- exactly where its number is not the greater or is not positive; no such time is earlier than one
-- that was made from a time_point, which is always the start of 1970.
pub of_time_t_order :
    (t u : ℤ)
    → (earlier (of_time_t t) (of_time_t u) ≡ (ltz t u && ltz (pos 0) u))
      × (earlier_or_same (of_time_t t) (of_time_t u) ≡ (not (ltz u t) || not (ltz (pos 0) t)))
      × (earlier (of_time_t t) (of_time_point u) ≡ false)
unfolding of_time_t of_time_point earlier earlier_or_same
of_time_t_order (pos t) (pos u) = (ground arith, ground arith, ground arith)
of_time_t_order (pos t) (negsuc u) = (ground arith, ground arith, ground arith)
of_time_t_order (negsuc t) (pos u) = (ground arith, ground arith, ground arith)
of_time_t_order (negsuc t) (negsuc u) = (ground arith, ground arith, ground arith)
