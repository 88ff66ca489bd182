-- ===== src/Utils/Times.antt =====
-- The text of the clock, against Time::toString.
use dklibrary.Common.{
  ℕ, ◌/◌, ◌%◌, ◌<◌, ◌≡◌, ◌∷◌, subst, refl, ap, sym, ◌∙◌, arith, List, ◌++◌, length, take, take_all,
  Option, some, none, if◌then◌else◌, ltb, ltb→lt, ◌==◌, Bool-cases, inl, inr, take-append_exact,
  true, some_injective, none-some,
}
use dklibrary.Common.Integer.{pos}
use dklibrary.Calendar.{Tm, Zone, Spec, date_time, strftime, print_all, padded}
use dklibrary.KTime.{to_string, of_time_t}
use dklibrary.KTime.Texts.{not_clamped}
use dklibrary.Utils.{get_time_string, with_millis}

==-eq : (a b : ℕ) → (a == b) ≡ true → a ≡ b
==-eq a b h = ground arith

fits_lem :
    (printed text : List ℕ) (size : ℕ)
    → (if ltb (length printed) size then some printed else none) ≡ some text
    → length text < size
fits_lem printed text size h = elim (Bool-cases (ltb (length printed) size)) [
  | inl fits ↦
      let same : some printed ≡ some text = cc in
      subst (λ t. length t < size) (some_injective printed text same) (ltb→lt _ size fits)
  | inr full ↦ absurd (none-some text (cc))
]

strftime-length :
    (size : ℕ) (format : List Spec) (tm : Tm) (text : List ℕ)
    → strftime size format tm ≡ some text
    → length text < size
unfolding strftime
strftime-length size format tm text h = fits_lem (print_all format tm) text size h

first_19 :
    (printed : Option (List ℕ)) (millis : ℕ)
    → ((text : List ℕ) → printed ≡ some text → length text < 20)
    → elim (with_millis printed millis) [ none ↦ none | some text ↦ some (take 19 text) ] ≡ printed
unfolding with_millis
first_19 none millis h = refl
first_19 (some text) millis h = elim (Bool-cases (length text == 19)) [
  | inl full ↦ rw full (
      ap some (
        ap (λ n. take n (text ++ take 4 (46 ∷ padded 3 millis))) (sym (==-eq _ 19 full))
        ∙ take-append_exact text (take 4 (46 ∷ padded 3 millis))))
  | inr short ↦ rw short (ap some (take_all 19 text (omega (arith, h text refl))))
]

-- At a point of the clock from 1970 on, for which toString of a Time of the clock's seconds gives a
-- text, that is, where the text fits its buffer, getTimeString gives the same text: it cuts off again
-- the milliseconds that getTimeStringMs has put behind it. This is so in every time zone.
pub get_time_string_lem :
    (zone : Zone) (clock : ℕ) (text : List ℕ)
    → to_string zone (of_time_t (pos (clock / 1000000000))) ≡ some text
    → get_time_string zone (pos clock) ≡ some text
unfolding get_time_string to_string
get_time_string_lem zone clock text fits =
    let seconds = pos (clock / 1000000000) in
    first_19 (strftime 20 date_time (zone.localtime seconds)) (clock / 1000000 % 1000)
      (λ text h. strftime-length 20 date_time (zone.localtime seconds) text h)
    ∙ ap (to_string zone) (sym (not_clamped (clock / 1000000000)))
    ∙ fits
