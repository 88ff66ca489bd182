-- ===== src/Options/Flags.antt =====
-- The laws of the flags, by a table of the 256 values.
use dklibrary.Common.{
  List, [], ◌∷◌, ap, ◌∙◌, ℕ, zero, suc, ◌<◌, ◌≤◌, ◌+◌, ◌≡◌, refl, subst, arith, Bool, true, false,
  ◌&&◌, ltb, ltb→lt, ltb→ge, Bool-cases, inl, inr, if◌then◌else◌,
}
use dklibrary.Options.{Send, Flag, encrypted, compressed, multi, is_set, set, save_to, load_from}

abbrev pub same_flag : Flag → Flag → Bool
same_flag encrypted encrypted = true
same_flag compressed compressed = true
same_flag multi multi = true
same_flag _ _ = false

agrees : Bool → Bool → Bool
agrees true b = b
agrees false true = false
agrees false false = true

agrees_eq : (a b : Bool) → agrees a b ≡ true → a ≡ b
unfolding agrees
agrees_eq a b h = ground arith

-- A test at each of the 2 ^ depth values from `start` on, a half after the other.
span : ℕ → ℕ
span zero = 1
span (suc depth) = span depth + span depth

each : (test : ℕ → Bool) (start depth : ℕ) → Bool
unfolding span
each test start zero = test start
each test start (suc depth) = each test start depth && each test (start + span depth) depth

halves : (a b : Bool) → (a && b) ≡ true → (a ≡ true) × (b ≡ true)
halves a b both = ground arith

each-within :
    (test : ℕ → Bool) (start depth x : ℕ)
    → each test start depth ≡ true
    → start ≤ x
    → x < start + span depth
    → test x ≡ true
unfolding each span
each-within test start zero x passed from to =
    let first : start ≡ x = omega arith in subst (λ y. test y ≡ true) first passed
each-within test start (suc depth) x passed from to =
    let (low, high) = halves _ _ passed in
    elim (Bool-cases (ltb x (start + span depth))) [
      | inl before ↦ each-within test start depth x low from (ltb→lt x _ before)
      | inr behind ↦
          each-within test (start + span depth) depth x high (ltb→ge x _ behind) (omega arith)
    ]

abbrev byte : ℕ → Send
byte x = record { options = x }

abbrev law : Flag → Flag → Bool → ℕ → Bool
law f g value x =
    agrees (is_set f (set g value (byte x))) (if same_flag f g then value else is_set f (byte x))
    && ltb (set g value (byte x)).options 256

table : (f g : Flag) (value : Bool) → each (law f g value) 0 8 ≡ true
unfolding each span agrees is_set set
table encrypted encrypted true = refl
table encrypted encrypted _ = refl
table encrypted compressed true = refl
table encrypted compressed _ = refl
table encrypted multi true = refl
table encrypted multi _ = refl
table compressed encrypted true = refl
table compressed encrypted _ = refl
table compressed compressed true = refl
table compressed compressed _ = refl
table compressed multi true = refl
table compressed multi _ = refl
table multi encrypted true = refl
table multi encrypted _ = refl
table multi compressed true = refl
table multi compressed _ = refl
table multi multi true = refl
table multi multi _ = refl

flags_lem : (f g : Flag) (value : Bool) (x : ℕ) → x < 256 → law f g value x ≡ true
unfolding span
flags_lem f g value x h = each-within (law f g value) 0 8 x (table f g value) (omega arith) h

law_parts : (a b c : Bool) → (agrees a b && c) ≡ true → (a ≡ b) × (c ≡ true)
unfolding agrees
law_parts a b c h = ground arith

-- One flag has been set.
is_set-set :
    (f g : Flag) (value : Bool) (s : Send)
    → s.options < 256
    → (is_set f (set g value s) ≡ (if same_flag f g then value else is_set f s))
      × ((set g value s).options < 256)
is_set-set f g value s h =
    let (reads, stays) = law_parts _ _ _ (flags_lem f g value s.options h) in
    (reads, ltb→lt _ 256 stays)

-- Setters, one after another, and what they are to a function from the flags.
abbrev pub set_all : List (Flag × Bool) → Send → Send
set_all [] s = s
set_all ((g, value) ∷ settings) s = set_all settings (set g value s)

abbrev pub reads_all : List (Flag × Bool) → (Flag → Bool) → Flag → Bool
reads_all [] flags = flags
reads_all ((g, value) ∷ settings) flags =
    reads_all settings (λ f. if same_flag f g then value else flags f)

is_set-set_all :
    (settings : List (Flag × Bool)) (s : Send) (f : Flag)
    → s.options < 256
    → (is_set f (set_all settings s) ≡ reads_all settings (λ g. is_set g s) f)
      × ((set_all settings s).options < 256)
is_set-set_all [] s f h = (refl, h)
is_set-set_all ((g, value) ∷ settings) s f h =
    let stays = (is_set-set f g value s h).1 in
    let (reads, bound) = is_set-set_all settings (set g value s) f stays in
    let one : (λ k. is_set k (set g value s)) ≡ (λ k. if same_flag k g then value else is_set k s) =
      λ i k. (is_set-set k g value s h).0 i in
    (reads ∙ ap (λ flags. reads_all settings flags f) one, bound)

-- However the three flags have been set, one after another, saveTo gives a byte, and options that
-- load that byte, whatever they were, read each flag as it was set last, or as it was before where
-- it has not been set.
pub is_set-load_from :
    (settings : List (Flag × Bool)) (s other : Send) (f : Flag)
    → s.options < 256
    → (is_set f (load_from (save_to (set_all settings s)) other)
        ≡ reads_all settings (λ g. is_set g s) f)
      × (save_to (set_all settings s) < 256)
unfolding load_from save_to
is_set-load_from settings s other f h = is_set-set_all settings s f h
