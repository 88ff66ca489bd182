-- ===== src/Utils.antt =====
-- LibraryBase/Utils.h and .cpp: the time of a file's name, and the name of the file in a log's prefix.
-- A string is the list of its characters' codes. The clock counts nanoseconds since 1970,
-- and is negative before.
pub mod Names
pub mod Times
use dklibrary.Calendar.{Zone, date_time, strftime, decimal, padded}
use dklibrary.Common.Integer.{ℤ, pos, negsuc, trunc}
use dklibrary.Common.{
  ◌/◌, ◌%◌, ◌^◌, ◌-◌, take, length, ℕ, ◌+◌, ◌==◌, if◌then◌else◌, Bool, true, false, ◌||◌, List, [],
  ◌∷◌, ◌++◌, drop, Option, none, some,
}

abbrev pub colon : ℕ
colon = 58

abbrev pub blank : ℕ
blank = 32

abbrev pub dash : ℕ
dash = 45

abbrev pub underscore : ℕ
underscore = 95

-- The loop of getFileTimestring, with `out` so far.
pub file_timestring_loop : List ℕ → List ℕ → List ℕ
file_timestring_loop out [] = out
file_timestring_loop out (c ∷ time) =
    file_timestring_loop
      (if c == colon
        then out ++ (dash ∷ [])
        else if c == blank
        then out ++ (underscore ∷ [])
        else out ++ (c ∷ []))
      time

unfoldable pub file_timestring : List ℕ → List ℕ
unfolding file_timestring_loop
file_timestring time = file_timestring_loop [] time

abbrev pub is_separator : ℕ → Bool
is_separator c = c == 47 || c == 92

-- find_last_of("/\\"): none is npos.
pub find_last_separator : List ℕ → Option ℕ
find_last_separator [] = none
find_last_separator (c ∷ file) = elim (find_last_separator file) [
  | some i ↦ some (i + 1)
  | none ↦ if is_separator c then some 0 else none
]

-- substr from a position: none is std::out_of_range, which npos gives.
pub substr_from : Option ℕ → List ℕ → Option (List ℕ)
substr_from none s = none
substr_from (some i) s = some (drop i s)

-- The first two lines of getLogPrefix.
unfoldable pub log_file_name : List ℕ → Option (List ℕ)
unfolding find_last_separator substr_from
log_file_name file = substr_from (find_last_separator file) file

-- What the stringstream of getLogPrefix has printed: "[thread] [name] :line : func]".
abbrev pub prefix_text : ℕ → List ℕ → List ℕ → ℕ → List ℕ
prefix_text thread func name line =
    91
    ∷ (padded 4 (thread % 65536)
        ++ (93
            ∷ 32
            ∷ 91
            ∷ (name ++ (93 ∷ 32 ∷ 58 ∷ (decimal line ++ (32 ∷ 58 ∷ 32 ∷ (func ++ (93 ∷ []))))))))

-- The whole of getLogPrefix; the hash of the thread's id is an argument.
unfoldable pub log_prefix : ℕ → List ℕ → List ℕ → ℕ → Option (List ℕ)
log_prefix thread func file line = elim (log_file_name file) [
  | none ↦ none
  | some name ↦ some (prefix_text thread func name line)
]

-- The buffer of getTimeStringMs after its strftime: the milliseconds stand at index 19, so that a
-- shorter text ends before them. None: strftime leaves the buffer indeterminate where the text and its
-- end do not fit, and nothing is known of it, nor of the texts that are cut from it.
unfoldable pub with_millis : Option (List ℕ) → ℕ → Option (List ℕ)
with_millis none millis = none
with_millis (some text) millis =
    if length text == 19 then some (text ++ take 4 (46 ∷ padded 3 millis)) else some text

-- `(uint32_t)millis`: the casts and `%` keep the sign, and the cast to uint32_t wraps.
abbrev pub millis_of : ℤ → ℕ
millis_of (pos n) = n / 1000000 % 1000
millis_of (negsuc n) =
    let millis = (n + 1) / 1000000 % 1000 in if millis == 0 then 0 else 2 ^ 32 - millis

module _ (zone : Zone) where
  unfoldable pub get_time_string_ms : ℤ → Option (List ℕ)
  get_time_string_ms clock =
      let tm = zone.localtime (trunc 1000000000 clock) in
      with_millis (strftime 20 date_time tm) (millis_of clock)

  -- substr(0, 19)
  unfoldable pub get_time_string : ℤ → Option (List ℕ)
  unfolding get_time_string_ms
  get_time_string clock = elim (get_time_string_ms clock) [
    | none ↦ none
    | some text ↦ some (take 19 text)
  ]

  -- getFileTimestring, from the time on
  unfoldable pub get_file_timestring : ℤ → Option (List ℕ)
  unfolding get_time_string file_timestring
  get_file_timestring clock = elim (get_time_string clock) [
    | none ↦ none
    | some text ↦ some (file_timestring text)
  ]
