-- ===== src/Utils/Names.antt =====
-- What the names of Utils hold.
use dklibrary.Common.{
  ℕ, suc, ◌+◌, ◌==◌, ◌≡◌, ◌≢◌, refl, sym, ap, subst, ◌∙◌, arith, if◌then◌else◌, true, false, List,
  [], ◌∷◌, ◌++◌, map, append_assoc, append-nil, drop-append_exact, length, none, some,
}
use dklibrary.Utils.{
  file_timestring, file_timestring_loop, colon, blank, dash, underscore, is_separator,
  find_last_separator, substr_from, log_file_name,
}

-- A character of the file's name, from the one at its place.
abbrev pub replaced : ℕ → ℕ
replaced c = if c == colon then dash else if c == blank then underscore else c

loop_round :
    (c : ℕ) (out : List ℕ)
    → (if c == colon
        then out ++ (dash ∷ [])
        else if c == blank
        then out ++ (underscore ∷ [])
        else out ++ (c ∷ []))
      ≡ out ++ (replaced c ∷ [])
loop_round c out = ground arith

loop_lem : (out time : List ℕ) → file_timestring_loop out time ≡ out ++ map replaced time
unfolding file_timestring_loop
loop_lem out [] = sym (append-nil out)
loop_lem out (c ∷ time) =
    loop_lem
      (if c == colon
        then out ++ (dash ∷ [])
        else if c == blank
        then out ++ (underscore ∷ [])
        else out ++ (c ∷ []))
      time
    ∙ ap (λ o. o ++ map replaced time) (loop_round c out)
    ∙ append_assoc out (replaced c ∷ []) (map replaced time)

abbrev pub Nowhere : ℕ → List ℕ → Type 0
Nowhere x [] = Unit
Nowhere x (c ∷ s) = (c ≢ x) × Nowhere x s

replaced-Nowhere :
    (time : List ℕ) → Nowhere colon (map replaced time) × Nowhere blank (map replaced time)
replaced-Nowhere [] = (tt, tt)
replaced-Nowhere (c ∷ time) =
    let (no_colon, no_blank) = replaced-Nowhere time in
    ((replaced_colon c, no_colon), (replaced_blank c, no_blank))
  where
    replaced_colon : (c : ℕ) → replaced c ≢ colon
    replaced_colon c h = ground arith

    replaced_blank : (c : ℕ) → replaced c ≢ blank
    replaced_blank c h = ground arith

-- getFileTimestring gives the text of the time with a dash for each colon, an underscore for each
-- blank and every other character as it is, each at its place, and neither a colon nor a blank is
-- left in it.
pub file_timestring_lem :
    (time : List ℕ)
    → (file_timestring time ≡ map replaced time)
      × Nowhere colon (file_timestring time)
      × Nowhere blank (file_timestring time)
unfolding file_timestring
file_timestring_lem time =
    let eq = loop_lem [] time in
    let (no_colon, no_blank) = replaced-Nowhere time in
    (eq, subst (Nowhere colon) (sym eq) no_colon, subst (Nowhere blank) (sym eq) no_blank)

abbrev pub Plain : List ℕ → Type 0
Plain [] = Unit
Plain (c ∷ name) = (is_separator c ≡ false) × Plain name

find-Plain : (name : List ℕ) → Plain name → find_last_separator name ≡ none
unfolding find_last_separator
find-Plain [] h = refl
find-Plain (c ∷ name) (other, h) = cc (find-Plain name h)

find-last :
    (folder name : List ℕ) (c : ℕ)
    → is_separator c ≡ true
    → Plain name
    → find_last_separator (folder ++ (c ∷ name)) ≡ some (length folder)
unfolding find_last_separator
find-last [] name c sep h = cc (find-Plain name h)
find-last (x ∷ folder) name c sep h =
    let next : length folder + 1 ≡ suc (length folder) = omega arith in
    rw (find-last folder name c sep h, ap some next)

-- The name that getLogPrefix takes from the path of a source file: of a path whose last part has no
-- separator in it, the last separator and that part; a path without a separator makes substr throw,
-- as find_last_of gives npos.
pub log_file_name_lem :
    (folder name : List ℕ) (c : ℕ)
    → is_separator c ≡ true
    → Plain name
    → (log_file_name (folder ++ (c ∷ name)) ≡ some (c ∷ name)) × (log_file_name name ≡ none)
unfolding log_file_name substr_from
log_file_name_lem folder name c sep h = (
  ap (λ found. substr_from found (folder ++ (c ∷ name))) (find-last folder name c sep h)
      ∙ ap some (drop-append_exact folder (c ∷ name)),
  ap (λ found. substr_from found name) (find-Plain name h),
)
