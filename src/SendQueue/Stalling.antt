-- ===== src/SendQueue/Stalling.antt =====
-- What consume of LibraryNet/SendQueue.cpp does when nothing can be sent from the front stream.
use dklibrary.Common.{
  ℕ, zero, suc, ◌+◌, ◌≤◌, ◌<◌, ◌≡◌, ap, ◌∙◌, arith, List, [], ◌∷◌, ◌++◌, length, min, true, false,
  ◌==◌, eq→==, ne→==, append-nil, returns, throws, assertion,
}
use dklibrary.StreamBuf.{Memory, max_alloc}
use dklibrary.Stream
use dklibrary.Stream.{Stream, stream_of}
use dklibrary.Stream.Valid
use dklibrary.Stream.Writing.{stream_of_lem}
use dklibrary.Stream.Codec.Text.{readable_size_lem}
use dklibrary.SendQueue.{SendQueue, push_bytes, consume_round, consume_loop, consume}
use dklibrary.SendQueue.Consuming.{pending}

loop-stalls :
    (fuel n : ℕ) (s : Stream) (q : SendQueue)
    → Valid.IsValid s
    → Valid.contents s ≡ []
    → 0 < n
    → 0 < fuel
    → consume_loop fuel n (s ∷ q) ≡ throws assertion (s ∷ q)
unfolding consume_loop consume_round
loop-stalls zero n s q v none_left h enough = absurd (omega arith)
loop-stalls (suc fuel) n s q v none_left h enough =
    let wanted : (n == 0) ≡ false = ne→== n 0 (omega arith) in
    let nothing : (min (Stream.readable_size s) n == 0) ≡ true =
      eq→== (min (Stream.readable_size s) n) 0
        (omega (arith, readable_size_lem s v, ap length none_left)) in
    rw (consume_loop, wanted, consume_round, nothing)

consume-stalls :
    (n : ℕ) (s : Stream) (q : SendQueue)
    → Valid.IsValid s
    → Valid.contents s ≡ []
    → 0 < n
    → consume n (s ∷ q) ≡ throws assertion (s ∷ q)
unfolding consume
consume-stalls n s q v none_left h =
    rw (ne→== n 0 (omega arith))
      (loop-stalls (length (s ∷ q) + 2) n s q v none_left h (omega arith))

module _ ⦃memory : Memory⦄ where
  pushed :
      (values : List ℕ) (q : SendQueue) (s : Stream)
      → stream_of values ≡ returns tt s
      → push_bytes values q ≡ returns tt (q ++ (s ∷ []))
  unfolding push_bytes
  pushed values q s ran = rw (push_bytes, ran)

  -- An empty push onto an empty queue blocks what is pushed after it: the later bytes are pending,
  -- but the assertion of consume fails for any number of them.
  pub consume_after_empty_push :
      (values : List ℕ) (n : ℕ) (q1 q2 : SendQueue)
      → length values ≤ max_alloc
      → push_bytes [] [] ≡ returns tt q1
      → push_bytes values q1 ≡ returns tt q2
      → 0 < n
      → (pending q2 ≡ values) × (consume n q2 ≡ throws assertion q2)
  consume_after_empty_push values n q1 q2 small first second h =
      let (s, ran, v, holds) = stream_of_lem [] (omega arith) in
      let (t, ran', v', holds') = stream_of_lem values small in
      let first' = pushed [] [] s ran in
      let second' = pushed values q1 t ran' in
      let e1 : q1 ≡ s ∷ [] = cc in
      let e2 : q2 ≡ q1 ++ (t ∷ []) = cc in
      let e : q2 ≡ s ∷ t ∷ [] = e2 ∙ ap (λ p. p ++ (t ∷ [])) e1 in
      rw e (
        ap (λ bs. bs ++ (Valid.contents t ++ [])) holds ∙ append-nil (Valid.contents t) ∙ holds',
        consume-stalls n s (t ∷ []) v holds h,
      )
