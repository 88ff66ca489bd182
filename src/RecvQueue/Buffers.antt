-- ===== src/RecvQueue/Buffers.antt =====
-- The buffers of LibraryNet/RecvQueue.cpp that boost::asio writes to: it fills them one after another.
use dklibrary.Common.{
  ℕ, zero, suc, ◌+◌, ◌-◌, ◌≤◌, ◌≡◌, refl, sym, ap, subst, ◌∙◌, arith, List, [], ◌∷◌, ◌++◌, length,
  take, drop, true, false, Bool-cases, inl, inr, ltb, ltb→lt, ltb→ge, append_assoc, append-nil,
  length-append, length-take, length-drop, take-append-drop, take-append_left, take-take,
  drop-append_left, drop-append_right, take_all, drop_all, drop-drop,
}
use dklibrary.StreamBuf.{overwrite}
use dklibrary.StreamBuf.Growth.{length-overwrite}
use dklibrary.Stream
use dklibrary.Stream.{Stream, store}
use dklibrary.Stream.Valid
use dklibrary.Stream.Valid.{drop-overwrite}
use dklibrary.RecvQueue.{RecvQueue, Region, regions, buffers}
use dklibrary.RecvQueue.Valid.{space, InOrder}
use dklibrary.RecvQueue.Sizes.{length-room}
use dklibrary.RecvQueue.Arrival.{SameCommitted, Filled}

-- A write to the block of the stream of the given index.
abbrev pub write_at : ℕ → ℕ → List ℕ → RecvQueue → RecvQueue
write_at i offset values [] = []
write_at zero offset values (s ∷ q) =
    record s { buf = record s.buf { bytes = overwrite s.buf.bytes offset values } } ∷ q
write_at (suc i) offset values (s ∷ q) = s ∷ write_at i offset values q

-- What a scattered write of `bytes` to the regions leaves.
abbrev pub scatter : List Region → List ℕ → RecvQueue → RecvQueue
scatter [] bytes q = q
scatter (r ∷ rs) bytes q =
    scatter rs (drop r.size bytes) (write_at r.stream r.offset (take r.size bytes) q)

-- The regions of the streams behind another one leave that one alone.
scatter_behind :
    (s : Stream) (i : ℕ) (bytes : List ℕ) (q p : RecvQueue)
    → scatter (regions (suc i) q) bytes (s ∷ p) ≡ s ∷ scatter (regions i q) bytes p
unfolding regions
scatter_behind s i bytes [] p = refl
scatter_behind s i bytes (t ∷ q) p =
    let next : suc i + 1 ≡ suc (i + 1) = omega arith in
    elim (Bool-cases (ltb 0 (Stream.writable_size t))) [
      | inl roomy ↦
          rw (roomy, next)
            (scatter_behind s (i + 1) (drop (Stream.writable_size t) bytes) q
              (write_at i t.written (take (Stream.writable_size t) bytes) p))
      | inr full ↦ rw (full, next) (scatter_behind s (i + 1) bytes q p)
    ]

-- A stream of the queue with bytes in the free part of its block.
module _ (s : Stream) (v : Valid.IsValid s) (values : List ℕ)
    (fits : length values ≤ length (drop s.written s.buf.bytes)) where
  within : s.written + length values ≤ length s.buf.bytes
  within = omega (arith, length-drop s.written s.buf.bytes, v.room, v.sound.block)

  store-SameCommitted : SameCommitted s (store values s)
  store-SameCommitted =
      let bytes = s.buf.bytes in
      let front = take s.written bytes in
      let rest = values ++ drop (s.written + length values) bytes in
      let long : s.written ≤ length front = omega (arith, length-take s.written bytes, within) in
      record {
        same_read = refl;
        same_written = refl;
        same_size = refl;
        same_length = length-overwrite bytes s.written values within;
        same_front =
            take-append_left s.written front rest long
            ∙ take-take s.written s.written bytes (omega arith);
      }

  store-room :
      drop s.written (store values s).buf.bytes
      ≡ values ++ drop (length values) (drop s.written s.buf.bytes)
  store-room =
      drop-overwrite s.buf.bytes s.written values (omega (arith, within))
      ∙ ap (λ bs. values ++ bs) (sym (drop-drop (length values) s.written s.buf.bytes))

-- The bytes that have gone to the front block, and those that go to the others.
split_bytes :
    (bytes block others : List ℕ)
    → (take (length block) bytes ++ drop (length (take (length block) bytes)) block)
        ++ (drop (length block) bytes ++ drop (length (drop (length block) bytes)) others)
      ≡ bytes ++ drop (length bytes) (block ++ others)
split_bytes bytes block others =
    let n = length bytes in
    let w = length block in
    elim (Bool-cases (ltb w n)) [
      | inl more ↦
          let less = ltb→lt w n more in
          let front : length (take w bytes) ≡ w = omega (arith, length-take w bytes) in
          let back : length (drop w bytes) ≡ n - w = omega (arith, length-drop w bytes) in
          rw (front, back, drop_all w block (omega arith), append-nil)
            (sym (append_assoc (take w bytes) (drop w bytes) (drop (n - w) others))
              ∙ ap (λ bs. bs ++ drop (n - w) others) (take-append-drop w bytes)
              ∙ ap (λ bs. bytes ++ bs) (sym (drop-append_right n block others (omega arith))))
      | inr part ↦
          let few : n ≤ w = ltb→ge w n part in
          rw (take_all w bytes few, drop_all w bytes few)
            (append_assoc bytes (drop n block) others
              ∙ ap (λ bs. bytes ++ bs) (sym (drop-append_left n block others few)))
    ]

module _ (s : Stream) (q : RecvQueue) (bytes : List ℕ) where
  scatter_roomy :
      ltb 0 (Stream.writable_size s) ≡ true
      → scatter (buffers (s ∷ q)) bytes (s ∷ q)
        ≡ store (take (Stream.writable_size s) bytes) s
          ∷ scatter (buffers q) (drop (Stream.writable_size s) bytes) q
  unfolding buffers regions
  scatter_roomy roomy = rw roomy (
      scatter_behind (store (take (Stream.writable_size s) bytes) s) 0
        (drop (Stream.writable_size s) bytes) q q)

  scatter_full :
      ltb 0 (Stream.writable_size s) ≡ false
      → scatter (buffers (s ∷ q)) bytes (s ∷ q) ≡ s ∷ scatter (buffers q) bytes q
  unfolding buffers regions
  scatter_full full = rw full (scatter_behind s 0 bytes q q)

-- The queue, of which the room has taken the bytes.
abbrev pub Takes : RecvQueue → List ℕ → RecvQueue → Type 0
Takes q bytes f = Filled q f × (space f ≡ bytes ++ drop (length bytes) (space q))

module _ (s : Stream) (q : RecvQueue) (bytes : List ℕ) (v : Valid.IsValid s) where
  Takes-roomy :
      (f : RecvQueue)
      → Takes q (drop (Stream.writable_size s) bytes) f
      → Takes (s ∷ q) bytes (store (take (Stream.writable_size s) bytes) s ∷ f)
  Takes-roomy f (filled, room) =
      let block = drop s.written s.buf.bytes in
      let w = Stream.writable_size s in
      let len : length block ≡ w = length-room s v in
      let fits : length (take w bytes) ≤ length block = omega (arith, len, length-take w bytes) in
      (
        (store-SameCommitted s v (take w bytes) fits, filled),
        ap (λ bs. bs ++ space f) (store-room s v (take w bytes) fits)
            ∙ ap (λ bs. (take w bytes ++ drop (length (take w bytes)) block) ++ bs) room
            ∙ rw (← len) (split_bytes bytes block (space q)),
      )

  Takes-full :
      (f : RecvQueue) → Stream.writable_size s ≡ 0 → Takes q bytes f → Takes (s ∷ q) bytes (s ∷ f)
  Takes-full f full (filled, room) =
      let none_left : drop s.written s.buf.bytes ≡ [] =
        drop_all s.written s.buf.bytes
          (omega (arith, length-room s v, length-drop s.written s.buf.bytes)) in
      (
        (
          record {
            same_read = refl;
            same_written = refl;
            same_size = refl;
            same_length = refl;
            same_front = refl;
          },
          filled,
        ),
        rw none_left room,
      )

-- The socket writes no cursor and nothing in front of one, and its bytes are then the first of the
-- room.
pub scatter-Takes :
    (q : RecvQueue) (bytes : List ℕ)
    → InOrder q
    → length bytes ≤ length (space q)
    → Takes q bytes (scatter (buffers q) bytes q)
unfolding buffers
scatter-Takes [] [] h fits = (tt, refl)
scatter-Takes [] (b ∷ bytes) h fits = absurd (omega arith)
scatter-Takes (s ∷ q) bytes h fits =
    let w = Stream.writable_size s in
    let block = drop s.written s.buf.bytes in
    let len : length block ≡ w = length-room s h.0 in
    let total = length-append block (space q) in
    elim (Bool-cases (ltb 0 w)) [
      | inl roomy ↦
          let f = scatter (buffers q) (drop w bytes) q in
          subst (Takes (s ∷ q) bytes) (sym (scatter_roomy s q bytes roomy)) (
            Takes-roomy s q bytes h.0 f
              (scatter-Takes q (drop w bytes) h.3 (omega (arith, len, length-drop w bytes, total))))
      | inr full ↦
          let none_free : w ≡ 0 = omega (arith, ltb→ge 0 w full) in
          let f = scatter (buffers q) bytes q in
          subst (Takes (s ∷ q) bytes) (sym (scatter_full s q bytes full)) (
            Takes-full s q bytes h.0 f none_free
              (scatter-Takes q bytes h.3 (omega (arith, len, total))))
    ]
