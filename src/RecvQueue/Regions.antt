-- ===== src/RecvQueue/Regions.antt =====
-- buffers of LibraryNet/RecvQueue.cpp: which bytes it hands out.
use dklibrary.Common.{
  ℕ, zero, suc, ◌+◌, ◌<◌, ◌≡◌, refl, ◌∙◌, sym, arith, List, [], ◌∷◌, length, drop, subst, Bool,
  true, false, if◌then◌else◌, Bool-cases, inl, inr, ltb, ltb→lt, ltb→ge, length-append, Option,
  none, some,
}
use dklibrary.Stream
use dklibrary.Stream.{Stream}
use dklibrary.RecvQueue.{RecvQueue, Region, regions, buffers, writable_size}
use dklibrary.RecvQueue.Valid.{space, InOrder, IsValid}
use dklibrary.RecvQueue.Sizes.{writable_size-room, length-room, sizes_lem}

abbrev pub stream_at : ℕ → RecvQueue → Option Stream
stream_at i [] = none
stream_at zero (s ∷ q) = some s
stream_at (suc i) (s ∷ q) = stream_at i q

-- The region is the free part of a block: from the write cursor to the end, and not empty.
abbrev pub IsFree : RecvQueue → Region → Type 0
IsFree q r =
    (s : Stream) × (stream_at r.stream q ≡ some s)
    × (0 < r.size)
    × (r.offset ≡ s.written)
    × (r.offset + r.size ≡ s.buf.size)

abbrev pub AllFree : RecvQueue → List Region → Type 0
AllFree q [] = Unit
AllFree q (r ∷ rs) = IsFree q r × AllFree q rs

abbrev pub total_size : List Region → ℕ
total_size [] = 0
total_size (r ∷ rs) = r.size + total_size rs

regions_behind :
    (s : Stream) (i : ℕ) (q p : RecvQueue)
    → AllFree p (regions i q)
    → AllFree (s ∷ p) (regions (suc i) q)
unfolding regions
regions_behind s i [] p free = tt
regions_behind s i (t ∷ q) p free =
    go (ltb 0 (Stream.writable_size t)) (regions_behind s (i + 1) q p) free
  where
    region : ℕ → Region
    region k = record { stream = k; offset = t.written; size = Stream.writable_size t }

    next : suc (i + 1) ≡ suc i + 1
    next = omega arith

    go :
        (b : Bool)
        → (AllFree p (regions (i + 1) q) → AllFree (s ∷ p) (regions (suc (i + 1)) q))
        → AllFree p (if b then region i ∷ regions (i + 1) q else regions (i + 1) q)
        → AllFree
            (s ∷ p)
            (if b then region (suc i) ∷ regions (suc i + 1) q else regions (suc i + 1) q)
    go true behind (here, others) =
        (here, subst (λ k. AllFree (s ∷ p) (regions k q)) next (behind others))
    go false behind others = subst (λ k. AllFree (s ∷ p) (regions k q)) next (behind others)

regions_free :
    (s : Stream) (q : RecvQueue)
    → InOrder (s ∷ q)
    → AllFree q (regions 0 q)
    → AllFree (s ∷ q) (regions 0 (s ∷ q))
unfolding regions
regions_free s q h others =
    let behind = regions_behind s 0 q q others in
    elim (Bool-cases (ltb 0 (Stream.writable_size s))) [
      | inl roomy ↦
          rw roomy
            ((s, refl, ltb→lt _ _ roomy, refl, omega (arith, writable_size-room s h.0)), behind)
      | inr full ↦ rw full behind
    ]

total_behind : (i j : ℕ) (q : RecvQueue) → total_size (regions i q) ≡ total_size (regions j q)
unfolding regions
total_behind i j [] = refl
total_behind i j (s ∷ q) = elim (Bool-cases (ltb 0 (Stream.writable_size s))) [
  | inl roomy ↦ rw (roomy, total_behind (i + 1) (j + 1) q)
  | inr full ↦ rw full (total_behind (i + 1) (j + 1) q)
]

total_lem : (q : RecvQueue) → InOrder q → total_size (regions 0 q) ≡ length (space q)
unfolding regions
total_lem [] h = refl
total_lem (s ∷ q) h =
    let len = length-room s h.0 in
    let rest = total_lem q h.3 in
    let same = total_behind 1 0 q in
    let total = length-append (drop s.written s.buf.bytes) (space q) in
    elim (Bool-cases (ltb 0 (Stream.writable_size s))) [
      | inl roomy ↦ rw roomy (omega (arith, len, rest, same, total))
      | inr full ↦ rw full (omega (arith, len, rest, same, total, ltb→ge 0 _ full))
    ]

all_free : (q : RecvQueue) → InOrder q → AllFree q (regions 0 q)
unfolding regions
all_free [] h = tt
all_free (s ∷ q) h = regions_free s q h (all_free q h.3)

-- Each buffer that is handed out is all of the free part of the block of a stream, and not empty,
-- and getWritableSize is the sum of their sizes, with no wrap.
pub buffers_lem :
    (q : RecvQueue) → IsValid q → AllFree q (buffers q) × (writable_size q ≡ total_size (buffers q))
unfolding buffers
buffers_lem q v = (all_free q v.in_order, (sizes_lem q v).1 ∙ sym (total_lem q v.in_order))
