-- ===== src/Date/Order.antt =====
-- The operators of Date are a strict total order, and what daysAfter does to it.
use dklibrary.Common.{
  ◌≡◌, refl, ap, sym, ◌∙◌, ◌≢◌, arith, Bool, true, false, not, if◌then◌else◌, ◌⊎◌, inl, inr, some,
}
use dklibrary.Common.Integer.{
  ℤ, pos, ltz, eqz, ltz_trans, ltz_irreflexive, eqz_refl, ltz-add, add-ltz, compared, below, equal,
  above, ◌+ℤ◌,
}
use dklibrary.Date.{Date, same, earlier, days_after, fits_int}

abbrev first_of : Bool → Bool → Bool → Bool
first_of differ less behind = if not differ then less else behind

-- The dates of a pair: equal ones, or one the earlier, with what the tests answer.
abbrev pub IsSameDate : Date → Date → Type 0
IsSameDate d e = (d ≡ e) × (same d e ≡ true) × (earlier d e ≡ false) × (earlier e d ≡ false)

abbrev pub IsEarlierDate : Date → Date → Type 0
IsEarlierDate d e = (same d e ≡ false) × (earlier d e ≡ true) × (earlier e d ≡ false)

equal_date : (d e : Date) → d.year ≡ e.year → d.month ≡ e.month → d.day ≡ e.day → d ≡ e
equal_date d e y m n i = record { year = y i; month = m i; day = n i }

pub same_refl : (d : Date) → same d d ≡ true
unfolding same
same_refl d = cc (eqz_refl d.year, eqz_refl d.month, eqz_refl d.day)

earlier_irreflexive : (d : Date) → earlier d d ≡ false
unfolding earlier
earlier_irreflexive d = cc (eqz_refl d.year, eqz_refl d.month, ltz_irreflexive d.day)

-- What decides: the first field in which the dates differ.
by_year :
    (d e : Date)
    → eqz d.year e.year ≡ false
    → (same d e ≡ false) × (earlier d e ≡ ltz d.year e.year)
unfolding same earlier
by_year d e differ = (cc differ, cc differ)

by_month :
    (d e : Date)
    → d.year ≡ e.year
    → eqz d.month e.month ≡ false
    → (same d e ≡ false) × (earlier d e ≡ ltz d.month e.month)
unfolding same earlier
by_month d e year differ = (cc (eqz_refl e.year), cc (eqz_refl e.year))

by_day :
    (d e : Date)
    → d.year ≡ e.year
    → d.month ≡ e.month
    → (same d e ≡ eqz d.day e.day) × (earlier d e ≡ ltz d.day e.day)
unfolding same earlier
by_day d e year month =
    (cc (eqz_refl e.year, eqz_refl e.month), cc (eqz_refl e.year, eqz_refl e.month))

differ_in_day :
    (d e : Date)
    → d.year ≡ e.year
    → d.month ≡ e.month
    → eqz d.day e.day ≡ false
    → (same d e ≡ false) × (earlier d e ≡ ltz d.day e.day)
differ_in_day d e year month differ =
    let (answer, order) = by_day d e year month in (answer ∙ differ, order)

equal_dates : (d e : Date) → d ≡ e → IsSameDate d e
equal_dates d e eq = (
  eq,
  ap (same d) (sym eq) ∙ same_refl d,
  ap (earlier d) (sym eq) ∙ earlier_irreflexive d,
  ap (λ x. earlier x d) (sym eq) ∙ earlier_irreflexive d,
)

-- The tests on two dates of which a field decides, in both orders.
decided :
    (d e : Date) (a b : ℤ)
    → (a ≡ b → IsSameDate d e ⊎ (IsEarlierDate d e ⊎ IsEarlierDate e d))
    → (eqz a b ≡ false → (same d e ≡ false) × (earlier d e ≡ ltz a b))
    → (eqz b a ≡ false → (same e d ≡ false) × (earlier e d ≡ ltz b a))
    → IsSameDate d e ⊎ (IsEarlierDate d e ⊎ IsEarlierDate e d)
decided d e a b next to from = elim (compared a b) [
  | below differ less not_less differ' ↦
      inr (inl ((to differ).0, (to differ).1 ∙ less, (from differ').1 ∙ not_less))
  | equal eq ↦ next eq
  | above differ not_less less differ' ↦
      inr (inr ((from differ').0, (from differ').1 ∙ less, (to differ).1 ∙ not_less))
]

-- Of two dates exactly one holds: they are equal, and operator== answers true and operator< false in
-- both orders; or one is the earlier, and operator< answers true for it against the other and false
-- in the other order, and operator== of it against the other answers false.
pub earlier_trichotomy : (d e : Date) → IsSameDate d e ⊎ (IsEarlierDate d e ⊎ IsEarlierDate e d)
earlier_trichotomy d e =
    decided d e d.year e.year
      (λ year.
        decided d e d.month e.month
          (λ month.
            decided d e d.day e.day (λ day. inl (equal_dates d e (equal_date d e year month day)))
              (differ_in_day d e year month) (differ_in_day e d (sym year) (sym month)))
          (by_month d e year) (by_month e d (sym year)))
      (by_year d e) (by_year e d)

-- The field in which the earlier date is less, the ones before it being equal.
abbrev Before : Date → Date → Type 0
Before d e =
    (ltz d.year e.year ≡ true)
    ⊎ ((d.year ≡ e.year)
        × ((ltz d.month e.month ≡ true) ⊎ ((d.month ≡ e.month) × (ltz d.day e.day ≡ true))))

true≢false : true ≢ false
true≢false h = ground arith

ltz-differs : (a b : ℤ) → ltz a b ≡ true → eqz a b ≡ false
ltz-differs a b less = elim (compared a b) [
  | below differ _ _ _ ↦ differ
  | equal eq ↦ absurd (true≢false (sym less ∙ ap (ltz a) (sym eq) ∙ ltz_irreflexive a))
  | above differ _ _ _ ↦ differ
]

earlier→Before : (d e : Date) → earlier d e ≡ true → Before d e
earlier→Before d e h = elim (compared d.year e.year) [
  | below _ less _ _ ↦ inl less
  | above differ not_less _ _ ↦ absurd (true≢false (sym h ∙ (by_year d e differ).1 ∙ not_less))
  | equal year ↦ inr (
    year,
    elim (compared d.month e.month) [
      | below _ less _ _ ↦ inl less
      | above differ not_less _ _ ↦
          absurd (true≢false (sym h ∙ (by_month d e year differ).1 ∙ not_less))
      | equal month ↦ inr (month, sym (by_day d e year month).1 ∙ h)
    ],
  )
]

Before→earlier : (d e : Date) → Before d e → earlier d e ≡ true
Before→earlier d e (inl less) = (by_year d e (ltz-differs d.year e.year less)).1 ∙ less
Before→earlier d e (inr (year, inl less)) =
    (by_month d e year (ltz-differs d.month e.month less)).1 ∙ less
Before→earlier d e (inr (year, inr (month, less))) = (by_day d e year month).1 ∙ less

Before-trans : (d e f : Date) → Before d e → Before e f → Before d f
Before-trans d e f (inl h) (inl k) = inl (ltz_trans d.year e.year f.year h k)
Before-trans d e f (inl h) (inr (year, _)) = inl (cc (h, year))
Before-trans d e f (inr (year, _)) (inl k) = inl (cc (k, year))
Before-trans d e f (inr (y, inl h)) (inr (y', inl k)) =
    inr (y ∙ y', inl (ltz_trans d.month e.month f.month h k))
Before-trans d e f (inr (y, inl h)) (inr (y', inr (m, k))) = inr (y ∙ y', inl (cc (h, m)))
Before-trans d e f (inr (y, inr (m, h))) (inr (y', inl k)) = inr (y ∙ y', inl (cc (k, m)))
Before-trans d e f (inr (y, inr (m, h))) (inr (y', inr (m', k))) =
    inr (y ∙ y', inr (m ∙ m', ltz_trans d.day e.day f.day h k))

-- operator< is transitive.
pub earlier_trans : (d e f : Date) → earlier d e ≡ true → earlier e f ≡ true → earlier d f ≡ true
earlier_trans d e f h k =
    Before→earlier d f (Before-trans d e f (earlier→Before d e h) (earlier→Before e f k))

-- Where the sum of the day and the days fits an int, daysAfter gives a date with the same year and
-- month, as the day is not carried over into them: a later date for a positive number of days, an
-- earlier one for a negative number, and for none neither.
pub days_after_lem :
    (d : Date) (days : ℤ)
    → fits_int (d.day +ℤ days) ≡ true
    → (e : Date) × (days_after d days ≡ some e)
      × (earlier d e ≡ ltz (pos 0) days)
      × (earlier e d ≡ ltz days (pos 0))
      × (e.year ≡ d.year)
      × (e.month ≡ d.month)
unfolding days_after
days_after_lem d days fits =
    let e : Date = record d { day = d.day +ℤ days } in
    (
      e,
      rw fits,
      (by_day d e refl refl).1 ∙ ltz-add d.day days,
      (by_day e d refl refl).1 ∙ add-ltz d.day days,
      refl,
      refl,
    )
