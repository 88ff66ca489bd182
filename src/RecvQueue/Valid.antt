-- ===== src/RecvQueue/Valid.antt =====
-- The invariant of `RecvQueue`, the bytes that can be read from it and the room that it has.
use dklibrary.Common.{
  ℕ, ◌+◌, ◌^◌, ◌≤◌, ◌<◌, ◌≡◌, ◌⊎◌, arith, List, [], ◌∷◌, ◌++◌, length, drop, length-append,
  length-drop,
}
use dklibrary.Stream.Valid
use dklibrary.Stream.Valid.{length-contents}
use dklibrary.RecvQueue.{RecvQueue}

-- What can be read, oldest byte first.
abbrev pub contents : RecvQueue → List ℕ
contents [] = []
contents (s ∷ q) = Valid.contents s ++ contents q

-- The writable bytes of the blocks, in the order in which `buffers` hands them out.
abbrev pub space : RecvQueue → List ℕ
space [] = []
space (s ∷ q) = drop s.written s.buf.bytes ++ space q

abbrev pub total_alloc : RecvQueue → ℕ
total_alloc [] = 0
total_alloc (s ∷ q) = s.buf.size + total_alloc q

-- Each stream is valid and not read to the end of its block, and nothing can be read behind a
-- stream that has room: so the bytes that are committed next come after all others.
abbrev pub InOrder : RecvQueue → Type 0
InOrder [] = Unit
InOrder (s ∷ q) =
    Valid.IsValid s
    × (s.read < s.buf.size)
    × ((s.written ≡ s.buf.size) ⊎ (contents q ≡ []))
    × InOrder q

pub record IsValid (q : RecvQueue) : Type 0 where
  pub in_order : InOrder q
  pub bounded : total_alloc q < 2 ^ 63

pub length-contents-le : (q : RecvQueue) → InOrder q → length (contents q) ≤ total_alloc q
length-contents-le [] h = omega arith
length-contents-le (s ∷ q) h = omega (
  arith,
  length-append (Valid.contents s) (contents q),
  length-contents s h.0,
  length-contents-le q h.3,
)

pub length-space-le : (q : RecvQueue) → InOrder q → length (space q) ≤ total_alloc q
length-space-le [] h = omega arith
length-space-le (s ∷ q) h = omega (
  arith,
  length-append (drop s.written s.buf.bytes) (space q),
  length-drop s.written s.buf.bytes,
  length-space-le q h.3,
)
