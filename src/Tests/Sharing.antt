-- ===== src/Tests/Sharing.antt =====
-- Copies of a stream of LibraryBase/Stream.h.
use dklibrary.Common.{◌==◌, if◌then◌else◌, arith, List, [], ◌∷◌, ℕ, ◌≡◌, returns}
use dklibrary.Stream.{write, read_bytes, create_stream}
use dklibrary.Stream.Valid.{contents}
use dklibrary.Stream.Shared.{World, view, call, construct, copy_construct}
use dklibrary.Stream.Shared.Refining.{
  IsSound, Op, make, copy, write_to, read_from, all_contents, exec, exec_all, spec_all, AllAllowed,
  exec_all-Refines,
}
use dklibrary.Tests.Data.{zeroed, small}

-- Every object shares the block of `small`; that at 1 has read four bytes of it.
abbrev shared : World
shared = record {
  objects = λ i.
      if i == 1
      then record { read = 4; written = 8; block = 0 }
      else record { read = 0; written = 8; block = 0 };
  blocks = λ b. small.buf;
  next = 1;
}

shared-IsSound : IsSound shared
shared-IsSound = record { valid = λ i. ground arith; made = λ i. ground arith }

-- A new stream, two bytes to it, a copy of it, a byte to the copy, and reads of both.
abbrev program : List Op
program =
    make 3 10
    ∷ write_to 3 (7 ∷ 8 ∷ [])
    ∷ copy 2 3
    ∷ write_to 2 (9 ∷ [])
    ∷ read_from 3 2
    ∷ read_from 2 3
    ∷ []

program-AllAllowed : AllAllowed program shared
unfolding exec call construct copy_construct write read_bytes create_stream
program-AllAllowed = (
  omega arith,
  (
    (omega arith, λ j other same. ground arith),
    (tt, ((omega arith, λ j other same. ground arith), (omega arith, (omega arith, tt)))),
  ),
)

exec_all-Refines_example :
    (w' : World) × (exec_all program shared
      ≡ returns ([] ∷ [] ∷ [] ∷ [] ∷ (7 ∷ 8 ∷ []) ∷ (7 ∷ 8 ∷ 9 ∷ []) ∷ []) w')
    × IsSound w'
    × ((k : ℕ) → contents (view k w') ≡ spec_all program (all_contents shared) k)
exec_all-Refines_example = exec_all-Refines program shared shared-IsSound program-AllAllowed
