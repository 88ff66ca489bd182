-- ===== src/SendQueue/Consuming.antt =====
-- push and consume of LibraryNet/SendQueue.cpp.
use dklibrary.Common.{
  ℕ, zero, suc, ◌+◌, ◌-◌, ◌≤◌, ◌<◌, ◌≡◌, refl, sym, ap, ◌∙◌, arith, List, [], ◌∷◌, ◌++◌, length,
  drop, min, true, false, ◌==◌, ==→eq, eq→==, ne→==, Bool-cases, inl, inr, ltb, ltb→lt, ltb→ge,
  returns, length-append, drop-append_left, drop-append_right, append_assoc, append-nil, Outcome,
}
use dklibrary.StreamBuf.{Memory, max_alloc}
use dklibrary.Stream
use dklibrary.Stream.{Stream}
use dklibrary.Stream.Valid
use dklibrary.Stream.Valid.{length-contents}
use dklibrary.Stream.Writing.{stream_of_lem}
use dklibrary.Stream.Reading.{advanced, advanced-Consumed, consume_lem}
use dklibrary.Stream.Codec.Text.{readable_size_lem}
use dklibrary.SendQueue.{SendQueue, push_stream, push_bytes, consume_round, consume_loop, consume}

-- The bytes that are still to be sent.
abbrev pub pending : SendQueue → List ℕ
pending [] = []
pending (s ∷ q) = Valid.contents s ++ pending q

-- Each stream of the queue has something to send.
abbrev pub IsReady : SendQueue → Type 0
IsReady [] = Unit
IsReady (s ∷ q) = Valid.IsValid s × (0 < length (Valid.contents s)) × IsReady q

pub pending-append : (p q : SendQueue) → pending (p ++ q) ≡ pending p ++ pending q
pending-append [] q = refl
pending-append (s ∷ p) q =
    ap (λ bs. Valid.contents s ++ bs) (pending-append p q)
    ∙ sym (append_assoc (Valid.contents s) (pending p) (pending q))

append-IsReady :
    (q : SendQueue) (s : Stream)
    → IsReady q
    → Valid.IsValid s
    → 0 < length (Valid.contents s)
    → IsReady (q ++ (s ∷ []))
append-IsReady [] s h v some_left = (v, some_left, tt)
append-IsReady (t ∷ q) s h v some_left = (h.0, h.1, append-IsReady q s h.2 v some_left)

-- A stream that is pushed is sent after all that was pushed before.
pub push_stream_lem :
    (q : SendQueue) (s : Stream)
    → IsReady q
    → Valid.IsValid s
    → 0 < length (Valid.contents s)
    → (q' : SendQueue) × (push_stream s q ≡ returns tt q')
      × IsReady q'
      × (pending q' ≡ pending q ++ Valid.contents s)
unfolding push_stream
push_stream_lem q s h v some_left = (
  q ++ (s ∷ []),
  refl,
  append-IsReady q s h v some_left,
  pending-append q (s ∷ []) ∙ ap (λ bs. pending q ++ bs) (append-nil (Valid.contents s)),
)

module _ ⦃memory : Memory⦄ where
  -- Bytes that are pushed, one at least, are sent after all that was pushed before.
  pub push_bytes_lem :
      (q : SendQueue) (values : List ℕ)
      → IsReady q
      → 0 < length values
      → length values ≤ max_alloc
      → (q' : SendQueue) × (push_bytes values q ≡ returns tt q')
        × IsReady q'
        × (pending q' ≡ pending q ++ values)
  unfolding push_bytes
  push_bytes_lem q values h some_given small =
      let (s, ran, v, holds) = stream_of_lem values small in
      (
        q ++ (s ∷ []),
        rw (push_bytes, ran),
        append-IsReady q s h v (omega (arith, ap length holds)),
        pending-append q (s ∷ [])
            ∙ ap (λ bs. pending q ++ bs) (append-nil (Valid.contents s) ∙ holds),
      )

-- The first `n` bytes are gone.
pub record Sent (q : SendQueue) (n : ℕ) (q' : SendQueue) : Type 0 where
  pub ready : IsReady q'
  pub remaining : pending q' ≡ drop n (pending q)

module _ (again : ℕ → SendQueue → Outcome SendQueue (Unit {0})) (s : Stream) (q : SendQueue)
    (n k : ℕ) (h : IsReady (s ∷ q)) (taken : min (Stream.readable_size s) n ≡ k)
    (some_wanted : 0 < n) where
  -- A round takes the front stream away, or as much of it as is asked for.
  round_whole : k ≡ length (Valid.contents s) → consume_round again n (s ∷ q) ≡ again (n - k) q
  unfolding consume_round
  round_whole len =
      let some_taken : (k == 0) ≡ false = ne→== k 0 (omega arith) in
      let none_left : (Stream.readable_size (advanced s k) == 0) ≡ true =
        eq→== (Stream.readable_size (advanced s k)) 0 (omega (arith, length-contents s h.0)) in
      rw (consume_round, taken, some_taken, consume_lem s k h.0 (omega arith), none_left, taken)

  round_part :
      k < length (Valid.contents s)
      → consume_round again n (s ∷ q) ≡ again (n - k) (advanced s k ∷ q)
  unfolding consume_round
  round_part less =
      let some_taken : (k == 0) ≡ false = ne→== k 0 (omega (arith, readable_size_lem s h.0)) in
      let some_left : (Stream.readable_size (advanced s k) == 0) ≡ false =
        ne→== (Stream.readable_size (advanced s k)) 0 (omega (arith, length-contents s h.0)) in
      rw (consume_round, taken, some_taken, consume_lem s k h.0 (omega arith), some_left, taken)

abbrev SendsFrom : ℕ → ℕ → SendQueue → Type 0
SendsFrom fuel n q = (q' : SendQueue) × (consume_loop fuel n q ≡ returns tt q') × Sent q n q'

sends_nothing : (fuel n : ℕ) (q : SendQueue) → IsReady q → n ≡ 0 → SendsFrom (suc fuel) n q
unfolding consume_loop
sends_nothing fuel n q h e = (q, rw (eq→== n 0 e), record { ready = h; remaining = rw e })

loop_step :
    (fuel n : ℕ) (q : SendQueue)
    → 0 < n
    → consume_loop (suc fuel) n q ≡ consume_round (consume_loop fuel) n q
unfolding consume_loop
loop_step fuel n q h = rw (ne→== n 0 (omega arith))

-- One round for each stream that is sent whole, and one more to see that nothing is left.
consume_loop_lem :
    (fuel n : ℕ) (q : SendQueue)
    → IsReady q
    → n ≤ length (pending q)
    → length q < fuel
    → SendsFrom fuel n q
consume_loop_lem zero n q h fits enough = absurd (omega arith)
consume_loop_lem (suc fuel) zero q h fits enough = sends_nothing fuel zero q h refl
consume_loop_lem (suc fuel) (suc n) [] h fits enough = absurd (omega arith)
consume_loop_lem (suc fuel) (suc n) (s ∷ q) h fits enough =
    let m = suc n in
    let front = Valid.contents s in
    let k = length front in
    let whole = readable_size_lem s h.0 in
    elim (Bool-cases (ltb m k)) [
      | inl part ↦
          let less = ltb→lt m k part in
          let used = advanced-Consumed s m h.0 (omega arith) in
          let left : length (Valid.contents (advanced s m)) ≡ k - m =
            omega (arith, length-contents (advanced s m) used.valid, length-contents s h.0) in
          let ready : IsReady (advanced s m ∷ q) = (used.valid, omega (arith, left), h.2) in
          let (q', ran, sent) = last_round (advanced s m ∷ q) ready in
          (
            q',
            loop_step fuel m (s ∷ q) (omega arith)
                ∙ round_part (consume_loop fuel) s q m m h (omega (arith, whole)) (omega arith) less
                ∙ ran,
            record {
              ready = sent.ready;
              remaining =
                  sent.remaining
                  ∙ ap (λ j. drop j (pending (advanced s m ∷ q)))
                      (let done : m - m ≡ 0 = omega arith in done)
                  ∙ ap (λ bs. bs ++ pending q) used.remaining
                  ∙ sym (drop-append_left m front (pending q) (omega arith));
            },
          )
      | inr rest ↦
          let long = ltb→ge m k rest in
          let (q', ran, sent) =
            consume_loop_lem fuel (m - k) q h.2 (omega (arith, length-append front (pending q)))
              (omega arith) in
          (
            q',
            loop_step fuel m (s ∷ q) (omega arith)
                ∙ round_whole (consume_loop fuel) s q m k h (omega (arith, whole)) (omega arith)
                    refl
                ∙ ran,
            record {
              ready = sent.ready;
              remaining = sent.remaining ∙ sym (drop-append_right m front (pending q) long);
            },
          )
    ]
  where
    last_round : (p : SendQueue) → IsReady p → SendsFrom fuel (suc n - suc n) p
    last_round p ready = with_fuel fuel (omega arith)
      where
        with_fuel : (f : ℕ) → 0 < f → SendsFrom f (suc n - suc n) p
        with_fuel zero some_left = absurd (omega arith)
        with_fuel (suc f) some_left = sends_nothing f (suc n - suc n) p ready (omega arith)

-- After the socket has sent `n` of the pending bytes, consume removes exactly those, without a
-- failed assertion, and its loop ends, where each stream in the queue is valid and has bytes to read;
-- each one that is left then is and has so too.
pub consume_queue_lem :
    (n : ℕ) (q : SendQueue)
    → IsReady q
    → n ≤ length (pending q)
    → (q' : SendQueue) × (consume n q ≡ returns tt q')
      × IsReady q'
      × (pending q' ≡ drop n (pending q))
unfolding consume
consume_queue_lem n q h fits = elim (Bool-cases (n == 0)) [
  | inl nothing ↦ let e = ==→eq n 0 nothing in (q, rw nothing, h, rw e)
  | inr something ↦
      let (q', ran, sent) = consume_loop_lem (length q + 2) n q h fits (omega arith) in
      (q', rw something ran, sent.ready, sent.remaining)
]
