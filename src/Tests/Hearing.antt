-- ===== src/Tests/Hearing.antt =====
-- Two histories of one end of a connection.
use dklibrary.Common.{
  ◌+◌, ◌<◌, ◌^◌, ◌≡◌, refl, sym, ap, ◌∙◌, arith, inr, List, [], ◌∷◌, ◌++◌, none, some, returns,
  length, ℕ,
}
use dklibrary.StreamBuf.{max_alloc}
use dklibrary.Stream.{Stream}
use dklibrary.Stream.Valid
use dklibrary.RecvQueue.{RecvQueue}
use dklibrary.RecvQueue.Valid.{IsValid, contents, total_alloc}
use dklibrary.RecvQueue.Cycle.{commit-scatter-prepare}
use dklibrary.RecvQueue.Arrival.{Arrives}
use dklibrary.Encoder.{decode}
use dklibrary.Encoder.Validating.{size_field, decode-short}
use dklibrary.Encoder.Decoding.{decode_delivers}
use dklibrary.Encoder.Splitting.{Result, Splits}
use dklibrary.Encoder.Hearing.{Hears, opened, arrives, decodes, given, left_by, Hears-same}
use dklibrary.Encoder.Null.{null_encoder, NullSealed, null_encoder-IsCoding}
use dklibrary.Tests.Data.{zeroed}

nothing-IsValid : IsValid []
nothing-IsValid = record { in_order = tt; bounded = omega arith }

-- A frame, and three bytes of the next.
abbrev bytes : List ℕ
bytes = 4 ∷ 0 ∷ 0 ∷ 0 ∷ 0 ∷ 1 ∷ 0 ∷ 1 ∷ 4 ∷ 0 ∷ 0 ∷ []

-- A receive with room for sixteen bytes.
received :
    (q : RecvQueue) (arrived : List ℕ)
    → IsValid q
    → total_alloc q + max_alloc < 2 ^ 63
    → length arrived < 16
    → (r : RecvQueue) × Arrives q arrived r
      × IsValid r
      × (contents r ≡ contents q ++ arrived)
      × (total_alloc r < total_alloc q + max_alloc + 1)
received q arrived v bound few =
    let (p, r, _, _, v', holds, arrival, alloc) =
      commit-scatter-prepare 16 q arrived v (omega arith) bound (omega arith) in
    (r, arrival, v', holds, omega arith)

decoded :
    (q : RecvQueue)
    → IsValid q
    → contents q ≡ bytes
    → (s : Stream) × (q' : RecvQueue) × (decode null_encoder q ≡ returns (some s) q')
      × Valid.IsValid s
      × (Valid.contents s ≡ 1 ∷ 0 ∷ 1 ∷ [])
      × IsValid q'
      × (contents q' ≡ 4 ∷ 0 ∷ 0 ∷ [])
decoded q v e =
    decode_delivers null_encoder NullSealed null_encoder-IsCoding (1 ∷ 0 ∷ 1 ∷ [])
      (0 ∷ 1 ∷ 0 ∷ 1 ∷ []) (4 ∷ 0 ∷ 0 ∷ []) (0 ∷ [], refl, refl) q v e (omega arith) (omega arith)
      refl

four : (q : RecvQueue) → contents q ≡ bytes → size_field q < 2 ^ 32
four q e = rw e (omega arith)

-- All at once, and one decode.
abbrev at_once :
    (r : RecvQueue) × Arrives [] bytes r
    × IsValid r
    × (contents r ≡ bytes)
    × (total_alloc r < max_alloc + 1)
at_once = received [] bytes nothing-IsValid (omega arith) (omega arith)

abbrev first :
    (s : Stream) × (q' : RecvQueue) × (decode null_encoder at_once.0 ≡ returns (some s) q')
    × Valid.IsValid s
    × (Valid.contents s ≡ 1 ∷ 0 ∷ 1 ∷ [])
    × IsValid q'
    × (contents q' ≡ 4 ∷ 0 ∷ 0 ∷ [])
first = decoded at_once.0 at_once.2 at_once.3

heard_at_once : Hears null_encoder bytes first.1 (inr (Valid.contents first.0) ∷ [])
heard_at_once =
    decodes (arrives opened at_once.1 refl) (omega (arith, at_once.4)) (four at_once.0 at_once.3)
      (sym (ap left_by first.2)) (sym (ap given first.2))

-- Five bytes, a decode that waits, the others, and a decode.
abbrev five :
    (r : RecvQueue) × Arrives [] (4 ∷ 0 ∷ 0 ∷ 0 ∷ 0 ∷ []) r
    × IsValid r
    × (contents r ≡ 4 ∷ 0 ∷ 0 ∷ 0 ∷ 0 ∷ [])
    × (total_alloc r < max_alloc + 1)
five = received [] (4 ∷ 0 ∷ 0 ∷ 0 ∷ 0 ∷ []) nothing-IsValid (omega arith) (omega arith)

waits : decode null_encoder five.0 ≡ returns none five.0
waits = decode-short null_encoder five.0 five.2 (omega arith) (omega (arith, ap length five.3))

abbrev others :
    (r : RecvQueue) × Arrives five.0 (1 ∷ 0 ∷ 1 ∷ 4 ∷ 0 ∷ 0 ∷ []) r
    × IsValid r
    × (contents r ≡ contents five.0 ++ (1 ∷ 0 ∷ 1 ∷ 4 ∷ 0 ∷ 0 ∷ []))
    × (total_alloc r < total_alloc five.0 + max_alloc + 1)
others = received five.0 (1 ∷ 0 ∷ 1 ∷ 4 ∷ 0 ∷ 0 ∷ []) five.2 (omega (arith, five.4)) (omega arith)

all_there : contents others.0 ≡ bytes
all_there = others.3 ∙ ap (λ bs. bs ++ (1 ∷ 0 ∷ 1 ∷ 4 ∷ 0 ∷ 0 ∷ [])) five.3

abbrev second :
    (s : Stream) × (q' : RecvQueue) × (decode null_encoder others.0 ≡ returns (some s) q')
    × Valid.IsValid s
    × (Valid.contents s ≡ 1 ∷ 0 ∷ 1 ∷ [])
    × IsValid q'
    × (contents q' ≡ 4 ∷ 0 ∷ 0 ∷ [])
second = decoded others.0 others.2 all_there

heard_in_parts : Hears null_encoder bytes second.1 (inr (Valid.contents second.0) ∷ [])
heard_in_parts =
    let waiting : Hears null_encoder (4 ∷ 0 ∷ 0 ∷ 0 ∷ 0 ∷ []) five.0 [] =
      decodes (arrives opened five.1 refl) (omega (arith, five.4)) (rw five.3 (omega arith))
        (sym (ap left_by waits)) (sym (ap given waits)) in
    decodes (arrives waiting others.1 refl) (omega (arith, five.4, others.4))
      (four others.0 all_there) (sym (ap left_by second.2)) (sym (ap given second.2))

abbrev from_first : List Result
from_first = inr (Valid.contents first.0) ∷ []

abbrev from_second : List Result
from_second = inr (Valid.contents second.0) ∷ []

Hears-same_example :
    (from_first ≡ from_second)
    × (contents first.1 ≡ contents second.1)
    × Splits null_encoder (λ payload. inr payload) bytes from_first (contents first.1)
Hears-same_example =
    Hears-same null_encoder (λ payload. inr payload) (λ s payload valid holds. (valid, holds))
      (omega arith) bytes first.1 second.1 from_first from_second heard_at_once heard_in_parts refl
