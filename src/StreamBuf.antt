-- ===== src/StreamBuf.antt =====
-- LibraryBase/StreamBuf.h: a block of malloc'ed bytes whose size is rounded up to a power of two.
-- `Memory` stands for what the C library answers: the byte that malloc and realloc leave at each index
-- of a block that nothing has written yet, and `std::pow(2, std::ceil(::log2(n)))`, which is computed
-- in doubles and cast to size_t. malloc and realloc are taken to succeed, as the source takes them to.
pub mod Rounding
pub mod Growth
use dklibrary.Common.{
  ℕ, zero, suc, ◌+◌, ◌-◌, ◌/◌, ◌^◌, ◌≤◌, ◌≡◌, max, ltb, leb, if◌then◌else◌, Bool, not, ◌&&◌, ◌==◌,
  List, [], ◌∷◌, ◌++◌, length, take, drop,
}

pub record StreamBuf : Type 0 where
  pub size : ℕ
  pub bytes : List ℕ

-- MIN_ALLOC_SIZE
abbrev pub min_alloc_size : ℕ
min_alloc_size = 64

-- The largest block the theorems speak of: 256 TB, far above what malloc grants.
abbrev pub max_alloc : ℕ
max_alloc = 2 ^ 48

-- The least k with n ≤ 2 ^ k, by halving; 64 rounds do for every `size_t`.
abbrev pub ceil_log2_from : ℕ → ℕ → ℕ
ceil_log2_from zero n = 0
ceil_log2_from (suc rounds) n =
    let rest = suc (ceil_log2_from rounds ((n + 1) / 2)) in if leb n 1 then 0 else rest

abbrev pub ceil_log2 : ℕ → ℕ
ceil_log2 n = ceil_log2_from 64 n

-- `pow2_ceil n` is the size_t that pow(2, ceil(log2(n))) gives. The doubles are known to give the
-- least power of two that is not below n up to 2 ^ 48 alone: above, the logarithm is rounded.
pub record Memory : Type 0 where
  pub indeterminate : ℕ → ℕ
  pub pow2_ceil : ℕ → ℕ
  pub exact : (n : ℕ) → n ≤ max_alloc → pow2_ceil n ≡ 2 ^ ceil_log2 n

abbrev pub empty_buf : StreamBuf
empty_buf = record { size = 0; bytes = [] }

-- m_buffer is nullptr; a block that malloc has given has bytes.
abbrev pub is_null : StreamBuf → Bool
is_null b = length b.bytes == 0

-- Whether deallocate logs that the heap is corrupted, whether it calls free, and the block then.
pub record Deallocated : Type 0 where
  pub corrupted : Bool
  pub freed : Bool
  pub left : StreamBuf

-- deallocate, and ~StreamBuf(), which calls it
unfoldable pub deallocate : StreamBuf → Deallocated
deallocate b =
    let freed = ltb 0 b.size && not (is_null b) in
    record {
      corrupted = b.size == 0 && not (is_null b);
      freed = freed;
      left = if freed then record b { bytes = [] } else b;
    }

-- memcpy of `values` to `bytes + offset`.
abbrev pub overwrite : List ℕ → ℕ → List ℕ → List ℕ
overwrite bytes offset values = take offset bytes ++ (values ++ drop (offset + length values) bytes)

-- Every declaration below asks the C library.
module _ ⦃memory : Memory⦄ where
  unfoldable pub next_pow2 : ℕ → ℕ
  next_pow2 size = memory.pow2_ceil (max size min_alloc_size)

  pub fresh_from : ℕ → ℕ → List ℕ
  fresh_from i zero = []
  fresh_from i (suc n) = memory.indeterminate i ∷ fresh_from (i + 1) n

  -- realloc, and malloc where there is no block yet.
  unfoldable pub realloc : List ℕ → ℕ → List ℕ
  unfolding fresh_from
  realloc bytes n = take n bytes ++ fresh_from (length bytes) (n - length bytes)

  unfoldable pub allocate : StreamBuf → ℕ → StreamBuf
  unfolding realloc next_pow2
  allocate b size =
      if ltb 0 size
      then record { size = next_pow2 size; bytes = realloc b.bytes (next_pow2 size) }
      else b

  -- StreamBuf(std::size_t size)
  unfoldable pub create : ℕ → StreamBuf
  unfolding allocate
  create size = allocate empty_buf size
