-- ===== src/RecvQueue/Preparing.antt =====
-- prepare of LibraryNet/RecvQueue.cpp: room for received bytes.
use dklibrary.Common.{
  ℕ, ◌+◌, ◌^◌, ◌≤◌, ◌<◌, ◌≡◌, ◌⊎◌, refl, ap, ◌∙◌, arith, [], ◌∷◌, ◌++◌, length, drop, max, false,
  length-append, length-drop, ltb, ◌||◌, Bool-cases, inl, inr, ltb→ge, returns,
}
use dklibrary.StreamBuf.{Memory, max_alloc}
use dklibrary.Stream.{Stream, create_stream}
use dklibrary.Stream.Valid
use dklibrary.Stream.Valid.{create_stream-IsValid}
use dklibrary.RecvQueue.{RecvQueue, default_buf_size, is_empty, prepare, writable_size}
use dklibrary.RecvQueue.Valid.{contents, space, total_alloc, InOrder, IsValid}
use dklibrary.RecvQueue.Sizes.{sizes_lem}

total_alloc-append : (p q : RecvQueue) → total_alloc (p ++ q) ≡ total_alloc p + total_alloc q
total_alloc-append [] q = omega arith
total_alloc-append (s ∷ p) q = omega (arith, total_alloc-append p q)

-- A fresh stream at the end of the queue.
module _ (e : Stream) (valid : Valid.IsValid e) (roomy : e.read < e.buf.size)
    (unread : Valid.contents e ≡ []) where
  contents-append_fresh : (q : RecvQueue) → contents (q ++ (e ∷ [])) ≡ contents q
  contents-append_fresh [] = rw unread
  contents-append_fresh (s ∷ q) = ap (λ bs. Valid.contents s ++ bs) (contents-append_fresh q)

  append_fresh-InOrder : (q : RecvQueue) → InOrder q → InOrder (q ++ (e ∷ []))
  append_fresh-InOrder [] h = (valid, roomy, inr refl, tt)
  append_fresh-InOrder (s ∷ q) h = (h.0, h.1, kept h.2, append_fresh-InOrder q h.3)
    where
      kept :
          (s.written ≡ s.buf.size) ⊎ (contents q ≡ [])
          → (s.written ≡ s.buf.size) ⊎ (contents (q ++ (e ∷ [])) ≡ [])
      kept (inl full) = inl full
      kept (inr none_left) = inr (contents-append_fresh q ∙ none_left)

  space-append_fresh :
      (q : RecvQueue)
      → length (space (q ++ (e ∷ []))) ≡ length (space q) + length (drop e.written e.buf.bytes)
  space-append_fresh [] = omega (arith, length-append (drop e.written e.buf.bytes) [])
  space-append_fresh (s ∷ q) = omega (
    arith,
    length-append (drop s.written s.buf.bytes) (space (q ++ (e ∷ []))),
    length-append (drop s.written s.buf.bytes) (space q),
    space-append_fresh q,
  )

module _ ⦃memory : Memory⦄ where
  -- prepare succeeds, keeps what can be read, and leaves room for at least `n` more bytes.
  pub prepare_lem :
      (n : ℕ) (q : RecvQueue)
      → IsValid q
      → n ≤ max_alloc
      → total_alloc q + max_alloc < 2 ^ 63
      → (q' : RecvQueue) × (prepare n q ≡ returns tt q')
        × IsValid q'
        × (contents q' ≡ contents q)
        × (n ≤ length (space q'))
        × (total_alloc q' ≤ total_alloc q + max_alloc)
  unfolding prepare
  prepare_lem n q v small bound = elim (Bool-cases (is_empty q || ltb (writable_size q) n)) [
    | inl grows ↦
        let k = max n default_buf_size in
        let e = create_stream k in
        let (valid, unread, room, start) = create_stream-IsValid k (omega arith) in
        let roomy : e.read < e.buf.size = omega arith in
        let fresh = length-drop e.written e.buf.bytes in
        (
          q ++ (e ∷ []),
          rw grows,
          record {
            in_order = append_fresh-InOrder e valid roomy unread q v.in_order;
            bounded = omega (arith, total_alloc-append q (e ∷ []));
          },
          contents-append_fresh e valid roomy unread q,
          omega (arith, space-append_fresh e valid roomy unread q),
          omega (arith, total_alloc-append q (e ∷ [])),
        )
    | inr enough ↦
        let wide : ltb (writable_size q) n ≡ false = ground arith in
        let room = ltb→ge (writable_size q) n wide in
        (q, rw enough, v, refl, omega (arith, room, (sizes_lem q v).1), omega arith)
  ]
