-- ===== src/Stream/Reading.antt =====
-- What peek, consume, read and pop of LibraryBase/Stream.h do.
use dklibrary.Common.{
  ℕ, ◌+◌, ◌-◌, ◌≤◌, ◌<◌, ◌≡◌, refl, sym, ap, ◌∙◌, arith, length, take, drop, ltb, Bool-cases, inl,
  inr, ◌⊎◌, ltb→lt, ltb→ge, lt→ltb, ge→ltb, returns, throws, le→leb, gt→leb, assertion,
  stream_exception, drop-take, drop-drop, take-take, ◌>>=◌, ◌>>◌,
}
use dklibrary.Common.Word.{add64, sub64, add64-eq}
use dklibrary.StreamBuf.{max_alloc}
use dklibrary.Stream.{Stream, consume, pop, peek, verify_input, read_bytes}
use dklibrary.Stream.Valid.{IsValid, contents, length-contents}

-- `t` is `s` without the first `n` readable bytes.
pub record Consumed (s : Stream) (n : ℕ) (t : Stream) : Type 0 where
  pub valid : IsValid t
  pub remaining : contents t ≡ drop n (contents s)
  pub same_buf : t.buf ≡ s.buf
  pub same_written : t.written ≡ s.written

abbrev pub advanced : Stream → ℕ → Stream
advanced s n = record s { read = s.read + n }

pub advanced-Consumed :
    (s : Stream) (n : ℕ) → IsValid s → n ≤ length (contents s) → Consumed s n (advanced s n)
advanced-Consumed s n v h = record {
  valid = record { order = omega (arith, length-contents s v); room = v.room; sound = v.sound };
  remaining = sym (drop-drop n s.read (take s.written s.buf.bytes));
  same_buf = refl;
  same_written = refl;
}

module _ (s : Stream) (n : ℕ) (v : IsValid s) where
  -- `take n` of the readable bytes starts at the read cursor.
  pub take-contents :
      n ≤ length (contents s) → take n (drop s.read s.buf.bytes) ≡ take n (contents s)
  take-contents h =
      sym (
        take-take n (s.written - s.read) (drop s.read s.buf.bytes)
          (omega (arith, length-contents s v)))
      ∙ ap (take n) (sym (drop-take s.read s.written s.buf.bytes))

  pub consume_short : length (contents s) < n → n ≤ max_alloc → consume n s ≡ throws assertion s
  unfolding consume
  consume_short h small =
      let sum : add64 s.read n ≡ s.read + n = add64-eq s.read n (omega (arith, v.sound.bounded)) in
      rw (sum, gt→leb (s.read + n) s.written (omega (arith, length-contents s v)))

  pub consume_lem : n ≤ length (contents s) → consume n s ≡ returns tt (advanced s n)
  unfolding consume
  consume_lem h =
      let fits : s.read + n ≤ s.written = omega (arith, length-contents s v) in
      let sum : add64 s.read n ≡ s.read + n = add64-eq s.read n (omega arith) in
      rw (sum, le→leb (s.read + n) s.written fits)

  pub pop_lem : n ≤ length (contents s) → pop n s ≡ returns tt (advanced s n)
  unfolding pop
  pop_lem h = consume_lem h

  pub peek_lem : n ≤ length (contents s) → peek n s ≡ returns (take n (contents s)) s
  unfolding peek
  peek_lem h =
      let fits : s.read + n ≤ s.written = omega (arith, length-contents s v) in
      let sum : add64 s.read n ≡ s.read + n = add64-eq s.read n (omega arith) in
      rw (sum, le→leb (s.read + n) s.written fits) (ap (λ bs. returns bs s) (take-contents h))

  verify_input-enough : n ≤ length (contents s) → verify_input n s ≡ returns tt s
  unfolding verify_input
  verify_input-enough h =
      rw (ge→ltb (sub64 s.written s.read) n (omega (arith, length-contents s v)))

  verify_input-short :
      length (contents s) < n
      → verify_input n s ≡ throws (stream_exception "Stream buffer underflow") s
  unfolding verify_input
  verify_input-short h = rw (lt→ltb (sub64 s.written s.read) n (omega (arith, length-contents s v)))

  pub read_bytes-enough :
      n ≤ length (contents s) → read_bytes n s ≡ returns (take n (contents s)) (advanced s n)
  unfolding read_bytes
  read_bytes-enough h = rw (verify_input-enough h, ◌>>=◌, ◌>>◌, peek_lem h, consume_lem h)

  pub read_bytes-short :
      length (contents s) < n
      → read_bytes n s ≡ throws (stream_exception "Stream buffer underflow") s
  unfolding read_bytes
  read_bytes-short h = rw (verify_input-short h, ◌>>=◌, ◌>>◌)

-- A read of `n` bytes either finds them, returns them and removes them from the front of what can
-- be read, or finds fewer, throws a stream exception and changes nothing.
pub read_bytes_lem :
    (s : Stream) (n : ℕ)
    → IsValid s
    → ((n ≤ length (contents s))
        × ((t : Stream) × (read_bytes n s ≡ returns (take n (contents s)) t) × Consumed s n t))
      ⊎ ((length (contents s) < n)
          × (read_bytes n s ≡ throws (stream_exception "Stream buffer underflow") s))
read_bytes_lem s n v = elim (Bool-cases (ltb (length (contents s)) n)) [
  | inl short ↦ let h = ltb→lt (length (contents s)) n short in inr (h, read_bytes-short s n v h)
  | inr enough ↦
      let h = ltb→ge (length (contents s)) n enough in
      inl (h, (advanced s n, read_bytes-enough s n v h, advanced-Consumed s n v h))
]
