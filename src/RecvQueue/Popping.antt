-- ===== src/RecvQueue/Popping.antt =====
-- pop of LibraryNet/RecvQueue.cpp.
use dklibrary.Common.{
  ℕ, zero, suc, ◌+◌, ◌-◌, ◌≤◌, ◌<◌, ◌≡◌, ◌⊎◌, refl, sym, ap, ◌∙◌, arith, [], ◌∷◌, ◌++◌, length,
  drop, min, true, false, ◌&&◌, length-append, drop_all, ◌==◌, drop-append_left, drop-append_right,
  leb, Bool-cases, inl, inr, leb→le, leb→gt, ==→eq, eq→==, ne→==, returns, throws, assertion,
  Outcome, ltb, ltb→lt, ltb→ge, if◌then◌else◌,
}
use dklibrary.Stream
use dklibrary.Stream.{Stream, alloc_size, reset}
use dklibrary.Stream.Valid
use dklibrary.Stream.Valid.{length-contents}
use dklibrary.Stream.Reading
use dklibrary.Stream.Reading.{advanced, advanced-Consumed, consume_lem}
use dklibrary.Stream.Codec.Text.{readable_size_lem}
use dklibrary.RecvQueue.{RecvQueue, default_buf_size, is_empty, pop_round, pop_loop, pop}
use dklibrary.RecvQueue.Valid.{contents, total_alloc, InOrder, IsValid}
use dklibrary.RecvQueue.Sizes.{sizes_lem}

-- The first `n` bytes are gone, and the rest stands as it was.
pub record Popped (q : RecvQueue) (n : ℕ) (q' : RecvQueue) : Type 0 where
  pub in_order : InOrder q'
  pub remaining : contents q' ≡ drop n (contents q)
  pub alloc : total_alloc q' ≤ total_alloc q

module _ (s : Stream) (q : RecvQueue) (n : ℕ) (h : InOrder (s ∷ q)) where
  pop_part : n < length (Valid.contents s) → Popped (s ∷ q) n (advanced s n ∷ q)
  pop_part less =
      let used = advanced-Consumed s n h.0 (omega arith) in
      record {
        in_order = (used.valid, omega (arith, length-contents s h.0), h.2, h.3);
        remaining =
            ap (λ bs. bs ++ contents q) used.remaining
            ∙ sym (drop-append_left n (Valid.contents s) (contents q) (omega arith));
        alloc = omega arith;
      }

  pop_front_then :
      (q' : RecvQueue) (k : ℕ)
      → k ≡ length (Valid.contents s)
      → k ≤ n
      → Popped q (n - k) q'
      → Popped (s ∷ q) n q'
  pop_front_then q' k len long p = record {
    in_order = p.in_order;
    remaining =
        p.remaining
        ∙ ap (λ j. drop (n - j) (contents q)) len
        ∙ sym (drop-append_right n (Valid.contents s) (contents q) (omega arith));
    alloc = omega (arith, p.alloc);
  }

pop_nothing : (q : RecvQueue) (n : ℕ) → InOrder q → n ≡ 0 → Popped q n q
pop_nothing q n h e = record { in_order = h; remaining = rw e; alloc = omega arith }

pop_to_reset :
    (s : Stream) (n : ℕ)
    → InOrder (s ∷ [])
    → n ≡ length (Valid.contents s)
    → Popped (s ∷ []) n (reset (advanced s n) ∷ [])
pop_to_reset s n h len = record {
  in_order = (
    record { order = omega arith; room = omega arith; sound = h.0.sound },
    omega arith,
    inr refl,
    tt,
  );
  remaining =
      sym
        (drop_all n (Valid.contents s ++ []) (omega (arith, length-append (Valid.contents s) [])));
  alloc = omega arith;
}

-- One round of the loop, in each of its three ways to go on.
module _ (again : ℕ → RecvQueue → Outcome RecvQueue (Unit {0})) (s : Stream) (q : RecvQueue) (n : ℕ)
    (v : Valid.IsValid s) where
  round_part :
      n < length (Valid.contents s) → pop_round again n n s q ≡ returns tt (advanced s n ∷ q)
  unfolding pop_round
  round_part less =
      let used = advanced-Consumed s n v (omega arith) in
      let some_left : (Stream.readable_size (advanced s n) == 0) ≡ false =
        ne→== (Stream.readable_size (advanced s n)) 0 (omega (arith, length-contents s v)) in
      let done : (n - n == 0) ≡ true = eq→== (n - n) 0 (omega arith) in
      rw (pop_round, Reading.pop_lem s n v (omega arith), some_left, done)

  round_reset :
      n ≡ length (Valid.contents s)
      → (is_empty q && (alloc_size s == default_buf_size)) ≡ true
      → pop_round again n n s q ≡ returns tt (reset (advanced s n) ∷ [])
  unfolding pop_round
  round_reset len kept =
      let none_left : (Stream.readable_size (advanced s n) == 0) ≡ true =
        eq→== (Stream.readable_size (advanced s n)) 0 (omega (arith, length-contents s v)) in
      let done : (n - n == 0) ≡ true = eq→== (n - n) 0 (omega arith) in
      rw (pop_round, Reading.pop_lem s n v (omega arith), none_left, kept, done)

  round_erase :
      (k : ℕ)
      → k ≡ length (Valid.contents s)
      → k ≤ n
      → (is_empty q && (alloc_size s == default_buf_size)) ≡ false
      → pop_round again k n s q ≡ (if n - k == 0 then returns tt q else again (n - k) q)
  unfolding pop_round
  round_erase k len fits erased =
      let none_left : (Stream.readable_size (advanced s k) == 0) ≡ true =
        eq→== (Stream.readable_size (advanced s k)) 0 (omega (arith, length-contents s v)) in
      rw (pop_round, Reading.pop_lem s k v (omega arith), none_left, erased)

abbrev PopsFrom : ℕ → ℕ → RecvQueue → Type 0
PopsFrom fuel n q = (q' : RecvQueue) × (pop_loop fuel n q ≡ returns tt q') × Popped q n q'

-- The round takes all of the front stream, or as much as is asked for.
loop_round :
    (fuel n k : ℕ) (s : Stream) (q : RecvQueue)
    → min (Stream.readable_size s) n ≡ k
    → pop_loop (suc fuel) n (s ∷ q) ≡ pop_round (pop_loop fuel) k n s q
unfolding pop_loop
loop_round fuel n k s q e = ap (λ j. pop_round (pop_loop fuel) j n s q) e

pop_erasing :
    (fuel n : ℕ) (s : Stream) (q : RecvQueue)
    → InOrder (s ∷ q)
    → length (Valid.contents s) ≤ n
    → (is_empty q && (alloc_size s == default_buf_size)) ≡ false
    → PopsFrom fuel (n - length (Valid.contents s)) q
    → PopsFrom (suc fuel) n (s ∷ q)
pop_erasing fuel n s q h long erased (q', ran, p) =
    let k = length (Valid.contents s) in
    let step =
      loop_round fuel n k s q (omega (arith, readable_size_lem s h.0))
      ∙ round_erase (pop_loop fuel) s q n h.0 k refl long erased in
    elim (Bool-cases (n - k == 0)) [
      | inl done ↦ (
        q,
        step ∙ rw done,
        pop_front_then s q n h q k refl long (pop_nothing q (n - k) h.3 (==→eq (n - k) 0 done)),
      )
      | inr more ↦ (q', step ∙ rw more ran, pop_front_then s q n h q' k refl long p)
    ]

pop_within :
    (fuel n : ℕ) (s : Stream) (q : RecvQueue)
    → InOrder (s ∷ q)
    → n < length (Valid.contents s)
    → PopsFrom (suc fuel) n (s ∷ q)
pop_within fuel n s q h less = (
  advanced s n ∷ q,
  loop_round fuel n n s q (omega (arith, readable_size_lem s h.0))
      ∙ round_part (pop_loop fuel) s q n h.0 less,
  pop_part s q n h less,
)

pop_last :
    (fuel n : ℕ) (s : Stream)
    → InOrder (s ∷ [])
    → n ≡ length (Valid.contents s)
    → (alloc_size s == default_buf_size) ≡ true
    → PopsFrom (suc fuel) n (s ∷ [])
pop_last fuel n s h len kept = (
  reset (advanced s n) ∷ [],
  loop_round fuel n n s [] (omega (arith, readable_size_lem s h.0))
      ∙ round_reset (pop_loop fuel) s [] n h.0 len kept,
  pop_to_reset s n h len,
)

pop_kept :
    (fuel n : ℕ) (s : Stream) (q : RecvQueue)
    → InOrder (s ∷ q)
    → length (Valid.contents s) ≤ n
    → n ≤ length (contents (s ∷ q))
    → (is_empty q && (alloc_size s == default_buf_size)) ≡ true
    → PopsFrom (suc fuel) n (s ∷ q)
pop_kept fuel n s [] h long fits kept =
    pop_last fuel n s h (omega (arith, length-append (Valid.contents s) [])) kept
pop_kept fuel n s (t ∷ q) h long fits kept = cc

-- As much fuel as there are streams, and one more, is enough.
pop_loop_lem :
    (fuel n : ℕ) (q : RecvQueue)
    → InOrder q
    → n ≤ length (contents q)
    → length q < fuel
    → PopsFrom fuel n q
unfolding pop_loop
pop_loop_lem zero n q h fits enough = absurd (omega arith)
pop_loop_lem (suc fuel) n [] h fits enough =
    ([], rw (eq→== n 0 (omega arith)), pop_nothing [] n h (omega arith))
pop_loop_lem (suc fuel) n (s ∷ q) h fits enough =
    let k = length (Valid.contents s) in
    elim (Bool-cases (ltb n k)) [
      | inl less ↦ pop_within fuel n s q h (ltb→lt n k less)
      | inr rest ↦
          let long = ltb→ge n k rest in
          elim (Bool-cases (is_empty q && (alloc_size s == default_buf_size))) [
            | inl kept ↦ pop_kept fuel n s q h (omega (arith, long)) fits kept
            | inr erased ↦ pop_erasing fuel n s q h long erased (
                pop_loop_lem fuel (n - k) q h.3
                  (omega (arith, length-append (Valid.contents s) (contents q))) (omega arith))
          ]
    ]

-- pop removes the first `n` bytes and keeps the queue in order where so many can be read, and its
-- loop ends; where fewer can, the assertion in front of the loop fails.
pub pop_queue_lem :
    (n : ℕ) (q : RecvQueue)
    → IsValid q
    → ((n ≤ length (contents q)) × ((q' : RecvQueue) × (pop n q ≡ returns tt q') × Popped q n q'))
      ⊎ ((length (contents q) < n) × (pop n q ≡ throws assertion q))
unfolding pop
pop_queue_lem n q v =
    let (same, _) = sizes_lem q v in
    elim (Bool-cases (leb n (length (contents q)))) [
      | inl fits ↦
          let enough = leb→le n (length (contents q)) fits in
          let (q', ran, p) = pop_loop_lem (length q + 1) n q v.in_order enough (omega arith) in
          inl (enough, (q', rw (same, fits) ran, p))
      | inr short ↦ inr (leb→gt n (length (contents q)) short, rw (same, short))
    ]

pub Popped-IsValid : (n : ℕ) (q q' : RecvQueue) → IsValid q → Popped q n q' → IsValid q'
Popped-IsValid n q q' v p = record {
  in_order = p.in_order;
  bounded = omega (arith, v.bounded, p.alloc);
}

pub pop_queue-enough :
    (n : ℕ) (q : RecvQueue)
    → IsValid q
    → n ≤ length (contents q)
    → (q' : RecvQueue) × (pop n q ≡ returns tt q') × Popped q n q'
pop_queue-enough n q v fits = elim (pop_queue_lem n q v) [
  | inl (_, done) ↦ done
  | inr (short, _) ↦ absurd (omega arith)
]
