-- ===== src/StreamBuf/Rounding.antt =====
-- nextPow2 of LibraryBase/StreamBuf.h.
use dklibrary.Common.{
  ℕ, zero, suc, ◌+◌, ◌/◌, ◌^◌, ◌≤◌, ◌≡◌, max, leb, arith, Bool-cases, leb→le, leb→gt, inl, inr,
}
use dklibrary.Common.Power.{pow2-suc, pow2_mono}
use dklibrary.StreamBuf.{Memory, ceil_log2_from, next_pow2, min_alloc_size, max_alloc}

le-pow2-ceil_log2_from : (f n : ℕ) → n ≤ 2 ^ f → n ≤ 2 ^ ceil_log2_from f n
le-pow2-ceil_log2_from zero n h = h
le-pow2-ceil_log2_from (suc f) n h = elim (Bool-cases (leb n 1)) [
  | inl small ↦ rw small (leb→le n 1 small)
  | inr large ↦ rw large (
      omega (
        arith,
        pow2-suc (ceil_log2_from f ((n + 1) / 2)),
        le-pow2-ceil_log2_from f ((n + 1) / 2) (omega (arith, pow2-suc f)),
      ))
]

ceil_log2_from-le : (f k n : ℕ) → n ≤ 2 ^ k → ceil_log2_from f n ≤ k
ceil_log2_from-le zero k n h = omega arith
ceil_log2_from-le (suc f) zero n h = elim (Bool-cases (leb n 1)) [
  | inl small ↦ rw small (omega arith)
  | inr large ↦ absurd (omega (arith, leb→gt n 1 large))
]
ceil_log2_from-le (suc f) (suc k) n h = elim (Bool-cases (leb n 1)) [
  | inl small ↦ rw small (omega arith)
  | inr large ↦
      rw large (omega (arith, ceil_log2_from-le f k ((n + 1) / 2) (omega (arith, pow2-suc k))))
]

module _ ⦃memory : Memory⦄ where
  pub next_pow2_least :
      (size k : ℕ)
      → size ≤ max_alloc
      → size ≤ 2 ^ k
      → min_alloc_size ≤ 2 ^ k
      → (size ≤ next_pow2 size)
        × (min_alloc_size ≤ next_pow2 size)
        × (next_pow2 size ≤ 2 ^ k)
        × ((j : ℕ) × (next_pow2 size ≡ 2 ^ j))
  unfolding next_pow2
  next_pow2_least size k room big small =
      let n = max size 64 in
      let exact = memory.exact n (omega arith) in
      let enough = le-pow2-ceil_log2_from 64 n (omega arith) in
      let least = pow2_mono (ceil_log2_from 64 n) k (ceil_log2_from-le 64 k n (omega arith)) in
      (
        omega (arith, enough, exact),
        omega (arith, enough, exact),
        omega (arith, least, exact),
        (ceil_log2_from 64 n, exact),
      )

  pub next_pow2-le-max_alloc : (size : ℕ) → size ≤ max_alloc → next_pow2 size ≤ max_alloc
  next_pow2-le-max_alloc size h = (next_pow2_least size 48 h h (omega arith)).2

  pub le-next_pow2 : (size : ℕ) → size ≤ max_alloc → size ≤ next_pow2 size
  le-next_pow2 size h = (next_pow2_least size 48 h h (omega arith)).0
