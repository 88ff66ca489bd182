-- ===== src/StreamBuf/Growth.antt =====
-- allocate of LibraryBase/StreamBuf.h: what a block holds after it has grown.
use dklibrary.Common.{
  ℕ, zero, suc, ◌+◌, ◌-◌, ◌≤◌, ◌<◌, ◌≡◌, refl, ap, lt→ltb, arith, List, [], ◌++◌, length, take,
  drop, length-append, length-take, length-drop, take_all, take-append_left,
}
use dklibrary.StreamBuf.{
  Memory, StreamBuf, max_alloc, next_pow2, overwrite, fresh_from, realloc, allocate, create,
}
use dklibrary.StreamBuf.Rounding.{next_pow2-le-max_alloc, le-next_pow2}

-- The block has the size that it records, within the bound.
pub record IsSound (b : StreamBuf) : Type 0 where
  pub block : length b.bytes ≡ b.size
  pub bounded : b.size ≤ max_alloc

pub length-overwrite :
    (bytes : List ℕ) (offset : ℕ) (values : List ℕ)
    → offset + length values ≤ length bytes
    → length (overwrite bytes offset values) ≡ length bytes
length-overwrite bytes offset values h =
    rw
      (
        length-append (take offset bytes) (values ++ drop (offset + length values) bytes),
        length-append values (drop (offset + length values) bytes),
        length-take offset bytes,
        length-drop (offset + length values) bytes,
      )
      (omega arith)

module _ ⦃memory : Memory⦄ where
  length-fresh_from : (i n : ℕ) → length (fresh_from i n) ≡ n
  unfolding fresh_from
  length-fresh_from i zero = refl
  length-fresh_from i (suc n) = ap suc (length-fresh_from (i + 1) n)

  pub length-realloc : (bytes : List ℕ) (n : ℕ) → length (realloc bytes n) ≡ n
  unfolding realloc
  length-realloc bytes n = omega (
    arith,
    length-append (take n bytes) (fresh_from (length bytes) (n - length bytes)),
    length-take n bytes,
    length-fresh_from (length bytes) (n - length bytes),
  )

  pub take-realloc :
      (bytes : List ℕ) (n k : ℕ)
      → k ≤ length bytes
      → length bytes ≤ n
      → take k (realloc bytes n) ≡ take k bytes
  unfolding realloc
  take-realloc bytes n k h room =
      rw (take_all n bytes room)
        (take-append_left k bytes (fresh_from (length bytes) (n - length bytes)) h)

  pub allocate-grows :
      (b : StreamBuf) (size : ℕ)
      → 0 < size
      → allocate b size ≡ record { size = next_pow2 size; bytes = realloc b.bytes (next_pow2 size) }
  unfolding allocate
  allocate-grows b size h = rw (lt→ltb 0 size h)

  pub allocate-IsSound :
      (b : StreamBuf) (size : ℕ) → IsSound b → size ≤ max_alloc → IsSound (allocate b size)
  unfolding allocate
  allocate-IsSound b size v h =
      ground (arith, length-realloc b.bytes (next_pow2 size), next_pow2-le-max_alloc size h)

  -- A new buffer holds at least the bytes that it was asked for.
  pub create-IsSound :
      (size : ℕ) → size ≤ max_alloc → IsSound (create size) × (size ≤ (create size).size)
  unfolding create allocate
  create-IsSound size h = ground (
    arith,
    length-realloc [] (next_pow2 size),
    next_pow2-le-max_alloc size h,
    le-next_pow2 size h,
  )
