-- ===== src/RecvQueue/Arrival.antt =====
-- How received bytes reach a `RecvQueue`: room is prepared, the socket writes to the start of the
-- buffers that the queue hands out, and that many bytes are committed. The socket is boost::asio's
-- and is no code of the library: it may cut the bytes as it likes, and it touches no cursor and no
-- byte in front of the write cursors.
use dklibrary.Common.{
  ℕ, ◌+◌, ◌^◌, ◌≤◌, ◌<◌, ◌≡◌, ◌⊎◌, refl, sym, ap, ◌∙◌, arith, List, [], ◌∷◌, ◌++◌, length, take,
  drop, returns, append_assoc, append-nil, length-append, take-append_exact, inl, inr,
}
use dklibrary.StreamBuf.{Memory, max_alloc, overwrite}
use dklibrary.StreamBuf.Growth.{length-overwrite}
use dklibrary.Stream.{Stream, store, create_stream}
use dklibrary.Stream.Valid
use dklibrary.Stream.Valid.{create_stream-IsValid, drop-overwrite}
use dklibrary.RecvQueue.{RecvQueue, prepare, commit}
use dklibrary.RecvQueue.Valid.{contents, space, total_alloc, InOrder, IsValid}
use dklibrary.RecvQueue.Preparing.{prepare_lem}
use dklibrary.RecvQueue.Receiving.{commit_queue_lem}

-- The same stream but for the bytes behind its write cursor.
pub record SameCommitted (s t : Stream) : Type 0 where
  pub same_read : t.read ≡ s.read
  pub same_written : t.written ≡ s.written
  pub same_size : t.buf.size ≡ s.buf.size
  pub same_length : length t.buf.bytes ≡ length s.buf.bytes
  pub same_front : take t.written t.buf.bytes ≡ take s.written s.buf.bytes

abbrev pub Filled : RecvQueue → RecvQueue → Type 0
Filled [] [] = Unit
Filled [] (t ∷ p) = ⊥
Filled (s ∷ q) [] = ⊥
Filled (s ∷ q) (t ∷ p) = SameCommitted s t × Filled q p

module _ ⦃memory : Memory⦄ where
  -- The queue after the bytes have arrived, in as many chunks as it took.
  pub data Arrives (q : RecvQueue) : List ℕ → RecvQueue → Type 0 where
    start : Arrives q [] q
    room :
        {got : List ℕ} {p r : RecvQueue} (n : ℕ)
        → Arrives q got p
        → n ≤ max_alloc
        → total_alloc p + max_alloc < 2 ^ 63
        → prepare n p ≡ returns tt r
        → Arrives q got r
    chunk :
        {got all : List ℕ} {p r : RecvQueue} (f : RecvQueue) (bytes more : List ℕ)
        → Arrives q got p
        → Filled p f
        → space f ≡ bytes ++ more
        → commit (length bytes) f ≡ returns tt r
        → all ≡ got ++ bytes
        → Arrives q all r

Filled-contents : (q p : RecvQueue) → Filled q p → contents p ≡ contents q
Filled-contents [] [] f = refl
Filled-contents [] (t ∷ p) f = absurd f
Filled-contents (s ∷ q) [] f = absurd f
Filled-contents (s ∷ q) (t ∷ p) f =
    let same : Valid.contents t ≡ Valid.contents s =
      ap (λ k. drop k (take t.written t.buf.bytes)) f.0.same_read
      ∙ ap (drop s.read) f.0.same_front in
    ap (λ bs. bs ++ contents p) same ∙ ap (λ bs. Valid.contents s ++ bs) (Filled-contents q p f.1)

pub Filled-total_alloc : (q p : RecvQueue) → Filled q p → total_alloc p ≡ total_alloc q
Filled-total_alloc [] [] f = refl
Filled-total_alloc [] (t ∷ p) f = absurd f
Filled-total_alloc (s ∷ q) [] f = absurd f
Filled-total_alloc (s ∷ q) (t ∷ p) f = omega (arith, f.0.same_size, Filled-total_alloc q p f.1)

pub Filled-InOrder : (q p : RecvQueue) → Filled q p → InOrder q → InOrder p
Filled-InOrder [] [] f h = tt
Filled-InOrder [] (t ∷ p) f h = absurd f
Filled-InOrder (s ∷ q) [] f h = absurd f
Filled-InOrder (s ∷ q) (t ∷ p) f h =
    let same = f.0 in
    (
      record {
        order = omega (arith, same.same_read, same.same_written, h.0.order);
        room = omega (arith, same.same_written, same.same_size, h.0.room);
        sound = record {
          block = omega (arith, same.same_length, same.same_size, h.0.sound.block);
          bounded = omega (arith, same.same_size, h.0.sound.bounded);
        };
      },
      omega (arith, same.same_read, same.same_size, h.1),
      kept h.2,
      Filled-InOrder q p f.1 h.3,
    )
  where
    kept :
        (s.written ≡ s.buf.size) ⊎ (contents q ≡ []) → (t.written ≡ t.buf.size) ⊎ (contents p ≡ [])
    kept (inl full) = inl (omega (arith, f.0.same_written, f.0.same_size))
    kept (inr e) = inr (Filled-contents q p f.1 ∙ e)

module _ ⦃memory : Memory⦄ where
  chunk_lem :
      (p f r : RecvQueue) (bytes more : List ℕ)
      → IsValid p
      → Filled p f
      → space f ≡ bytes ++ more
      → commit (length bytes) f ≡ returns tt r
      → IsValid r × (contents r ≡ contents p ++ bytes)
  chunk_lem p f r bytes more v filled e ran =
      let fits : length bytes ≤ length (space f) =
        omega (arith, ap length e, length-append bytes more) in
      let (r', ran', a) =
        commit_queue_lem (length bytes) f (Filled-InOrder p f filled v.in_order) fits in
      let same : r' ≡ r = cc in
      rw (← same) (
        record {
          in_order = a.in_order;
          bounded = omega (arith, a.same_alloc, Filled-total_alloc p f filled, v.bounded);
        },
        a.arrived
            ∙ ap (λ bs. bs ++ take (length bytes) (space f)) (Filled-contents p f filled)
            ∙ ap (λ bs. contents p ++ take (length bytes) bs) e
            ∙ ap (λ bs. contents p ++ bs) (take-append_exact bytes more),
      )

  -- However the bytes are cut into chunks, what can be read afterwards is what could be read before
  -- and then all of them, in the order of their arrival.
  pub Arrives-contents :
      {q r : RecvQueue} {bytes : List ℕ}
      → Arrives q bytes r
      → IsValid q
      → IsValid r × (contents r ≡ contents q ++ bytes)
  Arrives-contents {q} start v = (v, sym (append-nil (contents q)))
  Arrives-contents (room {p = p} {r = r} n a small bound ran) v =
      let (valid, holds) = Arrives-contents a v in
      let (r', ran', valid', same, _, _) = prepare_lem n p valid small bound in
      let equal : r' ≡ r = cc in rw (← equal) (valid', same ∙ holds)
  Arrives-contents {q} (chunk {got = got} {p = p} {r = r} f bytes more a filled e ran all) v =
      let (valid, holds) = Arrives-contents a v in
      let (valid', holds') = chunk_lem p f r bytes more valid filled e ran in
      (
        valid',
        holds'
            ∙ ap (λ bs. bs ++ bytes) holds
            ∙ append_assoc (contents q) got bytes
            ∙ ap (λ bs. contents q ++ bs) (sym all),
      )

  -- Bytes that fit a fresh buffer can arrive in one chunk.
  pub Arrives-once :
      (bytes : List ℕ)
      → length bytes ≤ 4096
      → (r : RecvQueue) × Arrives [] bytes r × (total_alloc r ≤ max_alloc)
  unfolding prepare
  Arrives-once bytes h =
      let s = create_stream 4096 in
      let (v, _, room_made, unwritten) = create_stream-IsValid 4096 (omega arith) in
      let w = s.written in
      let more = drop (w + length bytes) s.buf.bytes in
      let kept : take w (overwrite s.buf.bytes w bytes) ≡ take w s.buf.bytes = rw unwritten refl in
      let same_length = length-overwrite s.buf.bytes w bytes (omega (arith, v.sound.block)) in
      let filled : Filled (s ∷ []) (store bytes s ∷ []) = (
        record {
          same_read = refl;
          same_written = refl;
          same_size = refl;
          same_length = same_length;
          same_front = kept;
        },
        tt,
      ) in
      let front : space (store bytes s ∷ []) ≡ bytes ++ (more ++ []) =
        ap (λ bs. bs ++ []) (drop-overwrite s.buf.bytes w bytes (omega (arith, v.sound.block)))
        ∙ append_assoc bytes more [] in
      let (r, ran, a) =
        commit_queue_lem (length bytes) (store bytes s ∷ [])
          (Filled-InOrder (s ∷ []) (store bytes s ∷ []) filled (v, omega arith, inr refl, tt))
          (omega (arith, ap length front, length-append bytes (more ++ []))) in
      (
        r,
        chunk (store bytes s ∷ []) bytes (more ++ [])
            (room 4096 start (omega arith) (omega arith) refl) filled front ran refl,
        omega (arith, a.same_alloc, v.sound.bounded),
      )
