-- ===== src/Tests/Lifetimes.antt =====
-- Streams that come and go.
use dklibrary.Common.{◌<◌, ◌≡◌, ◌⊎◌, refl, arith, false, [], ◌∷◌, returns}
use dklibrary.StreamBuf.Growth.{IsSound}
use dklibrary.Stream.{Stream, create_stream, write}
use dklibrary.Stream.Valid.{create_stream-IsValid}
use dklibrary.Stream.Writing.{Appended, write_lem}
use dklibrary.Stream.Shared.{update}
use dklibrary.Stream.Lifetimes.{
  Blocks, no_blocks, make_block, acquire, assign_block, construct, copy, assign, writes, Reach,
  initially, next,
}
use dklibrary.Stream.Lifetimes.Counting.{count, freed_once}
use dklibrary.Stream.Lifetimes.Safety.{Reach-IsFreed}
use dklibrary.Tests.Data.{zeroed}

abbrev two_made : Blocks
two_made = make_block 10 (make_block 10 no_blocks)

abbrev copied : Blocks
copied = acquire 0 two_made

three_streams : Reach copied (0 ∷ 1 ∷ 0 ∷ [])
unfolding make_block
three_streams =
    next (next (next initially (construct 10 (omega arith))) (construct 10 (omega arith)))
      (copy (1 ∷ []) [] 0 refl)

abbrev filled :
    (t : Stream) × (write (1 ∷ 2 ∷ []) (create_stream 10) ≡ returns tt t)
    × Appended (create_stream 10) (1 ∷ 2 ∷ []) t
filled =
    write_lem (create_stream 10) (1 ∷ 2 ∷ []) ((create_stream-IsValid 10 (omega arith)).0)
      (omega (arith, (create_stream-IsValid 10 (omega arith)).3))

abbrev written : Blocks
written = record copied { buffers = update copied.buffers 0 (filled.0).buf }

after_write : Reach written (0 ∷ 1 ∷ 0 ∷ [])
unfolding acquire make_block create_stream
after_write = next three_streams (
    writes [] (1 ∷ 0 ∷ []) 0 (create_stream 10) filled.0 (1 ∷ 2 ∷ []) refl
      ((create_stream-IsValid 10 (omega arith)).0) refl
      (omega (arith, (create_stream-IsValid 10 (omega arith)).3)) filled.1)

abbrev assigned : Blocks
assigned = assign_block 1 0 written

all_on_one : Reach assigned (0 ∷ 0 ∷ 0 ∷ [])
all_on_one = next after_write (assign (0 ∷ []) (0 ∷ []) [] (1 ∷ 0 ∷ []) 1 0 refl refl)

-- The block that the second stream had.
Reach-IsFreed_example :
    (assigned.uses 1 ≡ count 1 (0 ∷ 0 ∷ 0 ∷ []))
    × (((0 < count 1 (0 ∷ 0 ∷ 0 ∷ [])) × IsSound (assigned.buffers 1) × (assigned.frees 1 ≡ 0))
        ⊎ ((count 1 (0 ∷ 0 ∷ 0 ∷ []) ≡ 0)
            × ((assigned.buffers 1).bytes ≡ [])
            × (assigned.frees 1 ≡ freed_once (assigned.buffers 1))))
    × (assigned.corrupted ≡ false)
Reach-IsFreed_example = Reach-IsFreed assigned (0 ∷ 0 ∷ 0 ∷ []) 1 all_on_one
