-- ===== src/Common/Integer.antt =====
-- Integers over the native numbers, with the tests and the sum that the code uses of `int`.
use Prim.Native.Nat.{ℕ, zero, suc, ◌*◌, ◌/◌, ◌+◌, ◌-◌, ◌<◌}
use mathlib.Core.Path.{◌≡◌, refl, ap}
use mathlib.Core.Logic.{◌⊎◌, inl, inr}
use mathlib.Core.Bool.{Bool, true, false}
use native.Mathlib.Omega.{arith}
use dklibrary.Common.Tests.{ltb, ◌==◌, if◌then◌else◌}

pub data ℤ : Type 0 where
  pos : ℕ → ℤ
  negsuc : ℕ → ℤ

abbrev pub ltz : ℤ → ℤ → Bool
ltz (pos a) (pos b) = ltb a b
ltz (pos a) (negsuc b) = false
ltz (negsuc a) (pos b) = true
ltz (negsuc a) (negsuc b) = ltb b a

abbrev pub eqz : ℤ → ℤ → Bool
eqz (pos a) (pos b) = a == b
eqz (negsuc a) (negsuc b) = a == b
eqz _ _ = false

infixl 60 ◌+ℤ◌
abbrev pub ◌+ℤ◌ : ℤ → ℤ → ℤ
pos a +ℤ pos b = pos (a + b)
pos a +ℤ negsuc b = if ltb b a then pos (a - (b + 1)) else negsuc (b - a)
negsuc a +ℤ pos b = if ltb a b then pos (b - (a + 1)) else negsuc (a - b)
negsuc a +ℤ negsuc b = negsuc (a + b + 1)

pub eqz_refl : (a : ℤ) → eqz a a ≡ true
eqz_refl (pos a) = ground arith
eqz_refl (negsuc a) = ground arith

pub ltz_irreflexive : (a : ℤ) → ltz a a ≡ false
ltz_irreflexive (pos a) = ground arith
ltz_irreflexive (negsuc a) = ground arith

pub ltz_trans : (a b c : ℤ) → ltz a b ≡ true → ltz b c ≡ true → ltz a c ≡ true
ltz_trans (pos a) (pos b) (pos c) h k = ground arith
ltz_trans (pos a) (pos b) (negsuc c) h k = ground arith
ltz_trans (pos a) (negsuc b) c h k = ground arith
ltz_trans (negsuc a) (pos b) (pos c) h k = refl
ltz_trans (negsuc a) (pos b) (negsuc c) h k = ground arith
ltz_trans (negsuc a) (negsuc b) (pos c) h k = refl
ltz_trans (negsuc a) (negsuc b) (negsuc c) h k = ground arith

-- The tests of two numbers that are equal, or one the lesser.
pub data Compared (a b : ℤ) : Type 0 where
  below : eqz a b ≡ false → ltz a b ≡ true → ltz b a ≡ false → eqz b a ≡ false → Compared a b
  equal : a ≡ b → Compared a b
  above : eqz a b ≡ false → ltz a b ≡ false → ltz b a ≡ true → eqz b a ≡ false → Compared a b

same_or_not : (a b : ℕ) → (a ≡ b) ⊎ ((a < b) ⊎ (b < a))
same_or_not a b = ground arith

pub compared : (a b : ℤ) → Compared a b
compared (pos a) (pos b) = elim (same_or_not a b) [
  | inl same ↦ equal (ap pos same)
  | inr (inl lt) ↦ below (ground arith) (ground arith) (ground arith) (ground arith)
  | inr (inr gt) ↦ above (ground arith) (ground arith) (ground arith) (ground arith)
]
compared (pos a) (negsuc b) = above refl refl refl refl
compared (negsuc a) (pos b) = below refl refl refl refl
compared (negsuc a) (negsuc b) = elim (same_or_not a b) [
  | inl same ↦ equal (ap negsuc same)
  | inr (inl lt) ↦ above (ground arith) (ground arith) (ground arith) (ground arith)
  | inr (inr gt) ↦ below (ground arith) (ground arith) (ground arith) (ground arith)
]

pub ltz-add : (a b : ℤ) → ltz a (a +ℤ b) ≡ ltz (pos 0) b
ltz-add (pos a) (pos b) = ground arith
ltz-add (pos a) (negsuc b) = ground arith
ltz-add (negsuc a) (pos b) = ground arith
ltz-add (negsuc a) (negsuc b) = ground arith

pub add-ltz : (a b : ℤ) → ltz (a +ℤ b) a ≡ ltz b (pos 0)
add-ltz (pos a) (pos b) = ground arith
add-ltz (pos a) (negsuc b) = ground arith
add-ltz (negsuc a) (pos b) = ground arith
add-ltz (negsuc a) (negsuc b) = ground arith

-- The difference, the negative, a multiple, and the quotient cut towards zero.
abbrev pub negate : ℤ → ℤ
negate (pos zero) = pos zero
negate (pos (suc a)) = negsuc a
negate (negsuc a) = pos (a + 1)

infixl 60 ◌-ℤ◌
abbrev pub ◌-ℤ◌ : ℤ → ℤ → ℤ
a -ℤ b = a +ℤ negate b

abbrev pub scale : ℕ → ℤ → ℤ
scale n (pos a) = pos (n * a)
scale n (negsuc a) = negate (pos (n * (a + 1)))

abbrev pub trunc : ℕ → ℤ → ℤ
trunc n (pos a) = pos (a / n)
trunc n (negsuc a) = negate (pos ((a + 1) / n))
