-- ===== src/RecvQueue/Sizes.antt =====
-- getReadableSize, getWritableSize and buffers of LibraryNet/RecvQueue.cpp.
use dklibrary.Common.{
  ℕ, ◌+◌, ◌-◌, ◌^◌, ◌≤◌, ◌<◌, ◌≡◌, arith, [], ◌∷◌, length, drop, length-append, length-drop,
}
use dklibrary.Common.Word.{add64}
use dklibrary.Stream
use dklibrary.Stream.{Stream}
use dklibrary.Stream.Valid
use dklibrary.Stream.Valid.{length-contents}
use dklibrary.Stream.Codec.Text.{readable_size_lem}
use dklibrary.RecvQueue.{RecvQueue, add_readable, add_writable, readable_size, writable_size}
use dklibrary.RecvQueue.Valid.{contents, space, total_alloc, InOrder, IsValid}

pub writable_size-room :
    (s : Stream) → Valid.IsValid s → Stream.writable_size s ≡ s.buf.size - s.written
writable_size-room s v = omega arith

pub length-room :
    (s : Stream) → Valid.IsValid s → length (drop s.written s.buf.bytes) ≡ Stream.writable_size s
length-room s v = omega (arith, length-drop s.written s.buf.bytes)

add_readable_lem :
    (sum : ℕ) (q : RecvQueue)
    → InOrder q
    → sum + total_alloc q < 2 ^ 63
    → add_readable sum q ≡ sum + length (contents q)
unfolding add_readable
add_readable_lem sum [] h b = omega arith
add_readable_lem sum (s ∷ q) h b =
    let n = length (Valid.contents s) in
    let whole : Stream.readable_size s ≡ n = readable_size_lem s h.0 in
    let small : n ≤ s.buf.size = omega (arith, length-contents s h.0) in
    let step : add64 sum (Stream.readable_size s) ≡ sum + n = omega arith in
    rw step (
      omega (
        arith,
        add_readable_lem (sum + n) q h.3 (omega arith),
        length-append (Valid.contents s) (contents q),
      ))

add_writable_lem :
    (sum : ℕ) (q : RecvQueue)
    → InOrder q
    → sum + total_alloc q < 2 ^ 63
    → add_writable sum q ≡ sum + length (space q)
unfolding add_writable
add_writable_lem sum [] h b = omega arith
add_writable_lem sum (s ∷ q) h b =
    let n = length (drop s.written s.buf.bytes) in
    let whole : Stream.writable_size s ≡ n = omega (arith, length-room s h.0) in
    let small : n ≤ s.buf.size = omega (arith, length-drop s.written s.buf.bytes) in
    let step : add64 sum (Stream.writable_size s) ≡ sum + n = omega arith in
    rw step (
      omega (
        arith,
        add_writable_lem (sum + n) q h.3 (omega arith),
        length-append (drop s.written s.buf.bytes) (space q),
      ))

-- The sums count the readable bytes and the room, and do not wrap.
pub sizes_lem :
    (q : RecvQueue)
    → IsValid q
    → (readable_size q ≡ length (contents q)) × (writable_size q ≡ length (space q))
unfolding readable_size writable_size
sizes_lem q v = (
  omega (arith, add_readable_lem 0 q v.in_order (omega arith)),
  omega (arith, add_writable_lem 0 q v.in_order (omega arith)),
)
