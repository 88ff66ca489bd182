-- ===== src/Calendar.antt =====
-- What LibraryBase/KTime.h, KTime.cpp, Date.h, Date.cpp and Utils.cpp use of the C and C++ libraries
-- for times: std::tm, its text by strftime and std::get_time, and numbers by snprintf. localtime_s
-- and mktime depend on the time zone of the machine, and are the record Zone.
pub mod Digits
pub mod Parsing
pub mod Decimals
use dklibrary.Common.{
  ℕ, zero, suc, ◌+◌, ◌-◌, ◌*◌, ◌/◌, ◌%◌, ltb, leb, ◌==◌, if◌then◌else◌, ◌&&◌, Bool, List, [], ◌∷◌,
  ◌++◌, length, Option, none, some,
}
use dklibrary.Common.Integer.{ℤ, pos, negsuc, ◌+ℤ◌}

-- The members of std::tm that the code sets or prints, and tm_isdst.
pub record Tm : Type 0 where
  pub year : ℤ
  pub mon : ℤ
  pub mday : ℤ
  pub hour : ℤ
  pub min : ℤ
  pub sec : ℤ
  pub isdst : ℤ

-- `std::tm tm = {}`
abbrev pub no_tm : Tm
no_tm = record {
  year = pos 0;
  mon = pos 0;
  mday = pos 0;
  hour = pos 0;
  min = pos 0;
  sec = pos 0;
  isdst = pos 0;
}

pub record Zone : Type 0 where
  pub localtime : ℤ → Tm
  pub mktime : Tm → ℤ

-- The decimal digits of a number; an int has ten of them at most.
unfoldable pub decimal_from : ℕ → ℕ → List ℕ → List ℕ
decimal_from zero n digits = digits
decimal_from (suc fuel) n digits =
    let rest = decimal_from fuel (n / 10) ((48 + n % 10) ∷ digits) in
    if ltb n 10 then (48 + n) ∷ digits else rest

unfoldable pub decimal : ℕ → List ℕ
unfolding decimal_from
decimal n = decimal_from 20 n []

unfoldable pub zeros : ℕ → List ℕ
zeros zero = []
zeros (suc n) = 48 ∷ zeros n

-- %0<width>u and %0<width>d
unfoldable pub padded : ℕ → ℕ → List ℕ
padded width n = zeros (width - length (decimal n)) ++ decimal n

unfoldable pub padded_int : ℕ → ℤ → List ℕ
padded_int width (pos n) = padded width n
padded_int width (negsuc n) = 45 ∷ padded (width - 1) (n + 1)

-- %Y, %m, %d, %H, %M and %S, or a character of the format.
pub data Spec : Type 0 where
  year : Spec
  month : Spec
  day : Spec
  hour : Spec
  minute : Spec
  second : Spec
  char : ℕ → Spec

-- "%Y-%m-%d %H:%M:%S", and "%F %T", which is the same.
abbrev pub date_time : List Spec
date_time =
    year
    ∷ char 45
    ∷ month
    ∷ char 45
    ∷ day
    ∷ char 32
    ∷ hour
    ∷ char 58
    ∷ minute
    ∷ char 58
    ∷ second
    ∷ []

-- The year that is printed, and that a read one sets.
abbrev pub full_year : ℤ → ℤ
full_year years = years +ℤ pos 1900

abbrev pub since_1900 : ℤ → ℤ
since_1900 years = years +ℤ negsuc 1899

unfoldable pub print : Spec → Tm → List ℕ
print year tm = padded_int 1 (full_year tm.year)
print month tm = padded_int 2 (tm.mon +ℤ pos 1)
print day tm = padded_int 2 tm.mday
print hour tm = padded_int 2 tm.hour
print minute tm = padded_int 2 tm.min
print second tm = padded_int 2 tm.sec
print (char c) tm = c ∷ []

unfoldable pub print_all : List Spec → Tm → List ℕ
print_all [] tm = []
print_all (spec ∷ format) tm = print spec tm ++ print_all format tm

-- strftime into a buffer of `size` bytes: none where the text and its end do not fit, which leaves
-- the buffer indeterminate.
unfoldable pub strftime : ℕ → List Spec → Tm → Option (List ℕ)
strftime size format tm =
    if ltb (length (print_all format tm)) size then some (print_all format tm) else none

abbrev pub is_digit : ℕ → Bool
is_digit c = leb 48 c && leb c 57

-- At most `count` digits.
pub scan : ℕ → ℕ → List ℕ → ℕ × List ℕ
scan zero value text = (value, text)
scan (suc count) value [] = (value, [])
scan (suc count) value (c ∷ text) =
    let rest = scan count (value * 10 + (c - 48)) text in
    if is_digit c then rest else (value, c ∷ text)

-- A number of at least one digit, within its bounds.
pub get_number : ℕ → ℕ → ℕ → List ℕ → Option (ℕ × List ℕ)
unfolding scan
get_number low high count [] = none
get_number low high count (c ∷ text) =
    let (n, rest) = scan count 0 (c ∷ text) in
    if is_digit c && (leb low n && leb n high) then some (n, rest) else none

pub skip_blanks : List ℕ → List ℕ
skip_blanks [] = []
skip_blanks (c ∷ text) = let rest = skip_blanks text in if c == 32 then rest else c ∷ text

pub match_char : ℕ → List ℕ → Option (List ℕ)
unfolding skip_blanks
match_char c [] = if c == 32 then some [] else none
match_char c (x ∷ text) =
    if c == 32 then some (skip_blanks (x ∷ text)) else if x == c then some text else none

abbrev pub with_number : Option (ℕ × List ℕ) → (ℕ → Tm) → Option (Tm × List ℕ)
with_number none set = none
with_number (some (n, rest)) set = some (set n, rest)

abbrev pub with_rest : Option (List ℕ) → Tm → Option (Tm × List ℕ)
with_rest none tm = none
with_rest (some rest) tm = some (tm, rest)

-- What a number that is read sets.
pub read_spec : Spec → Tm → List ℕ → Option (Tm × List ℕ)
read_spec year tm text =
    with_number (get_number 0 9999 4 text) (λ n. record tm { year = since_1900 (pos n) })
read_spec month tm text =
    with_number (get_number 1 12 2 text) (λ n. record tm { mon = pos (n - 1) })
read_spec day tm text = with_number (get_number 1 31 2 text) (λ n. record tm { mday = pos n })
read_spec hour tm text = with_number (get_number 0 23 2 text) (λ n. record tm { hour = pos n })
read_spec minute tm text = with_number (get_number 0 59 2 text) (λ n. record tm { min = pos n })
read_spec second tm text = with_number (get_number 0 60 2 text) (λ n. record tm { sec = pos n })
read_spec (char c) tm text = with_rest (match_char c text) tm

-- std::get_time: what has been read before a failure stays in the tm.
pub get_time : List Spec → Tm → List ℕ → Tm
get_time [] tm text = tm
get_time (spec ∷ format) tm text = elim (read_spec spec tm text) [
  | none ↦ tm
  | some (tm', rest) ↦ get_time format tm' rest
]
