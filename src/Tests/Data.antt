-- ===== src/Tests/Data.antt =====
-- The values that the tests share.
use dklibrary.Common.{[], ◌∷◌, Outcome, returns, throws, arith, ◌^◌, refl}
use dklibrary.StreamBuf.{Memory, ceil_log2}
use dklibrary.Stream.{Stream}
use dklibrary.Stream.Valid.{IsValid}

instance abbrev pub zeroed : Memory
zeroed = record { indeterminate = λ i. 0; pow2_ceil = λ n. 2 ^ ceil_log2 n; exact = λ n h. refl }

abbrev pub state_of : {S A : Type 0} → Outcome S A → S
state_of (returns a s) = s
state_of (throws e s) = s

-- A stream of ten bytes, eight of them written: the string "Hi" and the number 513.
abbrev pub small : Stream
small = record {
  read = 0;
  written = 8;
  buf = record { size = 10; bytes = 2 ∷ 0 ∷ 0 ∷ 0 ∷ 72 ∷ 105 ∷ 1 ∷ 2 ∷ 0 ∷ 0 ∷ [] };
}

pub small-IsValid : IsValid small
small-IsValid = omega arith

-- A stream of ten bytes with nothing in it.
abbrev pub blank : Stream
blank = record {
  read = 0;
  written = 0;
  buf = record { size = 10; bytes = 0 ∷ 0 ∷ 0 ∷ 0 ∷ 0 ∷ 0 ∷ 0 ∷ 0 ∷ 0 ∷ 0 ∷ [] };
}

pub blank-IsValid : IsValid blank
blank-IsValid = omega arith
