-- ===== src/RecvQueue/Peeking.antt =====
-- peek of LibraryNet/RecvQueue.cpp.
use dklibrary.Common.{
  ℕ, ◌-◌, ◌≤◌, ◌≡◌, sym, ap, ◌∙◌, arith, [], ◌∷◌, ◌++◌, length, take, length-append, take_all,
  take-append_left, take-append_right, leb, Bool-cases, inl, inr, leb→le, leb→gt, returns, throws,
  assertion, if◌then◌else◌,
}
use dklibrary.Stream
use dklibrary.Stream.{Stream, alloc_size, reset}
use dklibrary.Stream.Valid
use dklibrary.Stream.Valid.{length-contents}
use dklibrary.Stream.Reading
use dklibrary.Stream.Reading.{advanced, advanced-Consumed, consume_lem}
use dklibrary.Stream.Codec.Text.{readable_size_lem}
use dklibrary.RecvQueue.{RecvQueue, peek_loop, peek}
use dklibrary.RecvQueue.Valid.{contents, InOrder, IsValid}
use dklibrary.RecvQueue.Sizes.{sizes_lem}

peek_loop_lem :
    (n : ℕ) (q : RecvQueue)
    → InOrder q
    → n ≤ length (contents q)
    → peek_loop n q ≡ returns (take n (contents q)) q
unfolding peek_loop
peek_loop_lem n [] h fits = ap (λ bs. returns bs []) (sym (take_all n [] (omega arith)))
peek_loop_lem n (s ∷ q) h fits =
    let front = Valid.contents s in
    let r = Stream.readable_size s in
    let whole : r ≡ length front = readable_size_lem s h.0 in
    elim (Bool-cases (leb n r)) [
      | inl here ↦
          let within : n ≤ length front = omega (arith, leb→le n r here) in
          rw (here, Reading.peek_lem s n h.0 within)
            (ap (λ bs. returns bs (s ∷ q)) (sym (take-append_left n front (contents q) within)))
      | inr past ↦
          let long : length front ≤ n = omega (arith, leb→gt n r past) in
          let rest =
            peek_loop_lem (n - r) q h.3 (omega (arith, length-append front (contents q))) in
          rw (past, Reading.peek_lem s r h.0 (omega arith), rest)
            (ap (λ bs. returns bs (s ∷ q))
              (ap (λ bs. bs ++ take (n - r) (contents q)) (take_all r front (omega arith))
                ∙ ap (λ j. front ++ take (n - j) (contents q)) whole
                ∙ sym (take-append_right n front (contents q) long)))
    ]

-- peek returns the first `n` bytes and changes nothing where so many can be read; where fewer can,
-- its assertion fails.
pub peek_queue_lem :
    (n : ℕ) (q : RecvQueue)
    → IsValid q
    → peek n q ≡ (
        if leb n (length (contents q)) then returns (take n (contents q)) q else throws assertion q)
unfolding peek
peek_queue_lem n q v =
    let (same, _) = sizes_lem q v in
    elim (Bool-cases (leb n (length (contents q)))) [
      | inl fits ↦
          rw (same, fits) (peek_loop_lem n q v.in_order (leb→le n (length (contents q)) fits))
      | inr short ↦ rw (same, short)
    ]
