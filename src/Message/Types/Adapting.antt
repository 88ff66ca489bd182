-- ===== src/Message/Types/Adapting.antt =====
-- A FlatBuffers message on the wire.
use dklibrary.Common.{
  ◌+◌, ◌≤◌, ◌≡◌, ap, subst, ret, ◌∙◌, arith, true, false, [], ◌++◌, length, take, drop, returns,
  throws, stream_exception, >>=-returns, take_all, drop_all,
}
use dklibrary.StreamBuf.{Memory, max_alloc}
use dklibrary.Stream.{Stream, readable_size, write, verify_output, consume}
use dklibrary.Stream.Valid.{IsValid, contents, length-contents}
use dklibrary.Stream.Writing.{verify_output_lem, write_lem, Grown-contents}
use dklibrary.Stream.Reading.{advanced, advanced-Consumed, consume_lem, take-contents}
use dklibrary.Stream.Codec.Laws.{Puts, Gets}
use dklibrary.Message.Types.{FlatBuffers, deserialize_fb, serialize_fb}

readable_size-length : (s : Stream) → IsValid s → readable_size s ≡ length (contents s)
readable_size-length s v = omega (arith, length-contents s v)

readable_all :
    (s : Stream) → IsValid s → take (readable_size s) (drop s.read s.buf.bytes) ≡ contents s
readable_all s v =
    ap (λ n. take n (drop s.read s.buf.bytes)) (readable_size-length s v)
    ∙ take-contents s (length (contents s)) v (omega arith)
    ∙ take_all (length (contents s)) (contents s) (omega arith)

module _ {A R : Type 0} (fb : FlatBuffers A R) where
  -- A buffer that passes the verification is read as a whole.
  pub deserialize_accepts :
      (s : Stream)
      → IsValid s
      → fb.verify (contents s) ≡ true
      → Gets (deserialize_fb fb) s (fb.get_root (contents s)) []
  unfolding deserialize_fb
  deserialize_accepts s v ok =
      let n = length (contents s) in
      let used = advanced-Consumed s n v (omega arith) in
      let ran =
        >>=-returns (consume n) (λ _. ret (fb.get_root (contents s))) s
          (consume_lem s n v (omega arith)) in
      (
        advanced s n,
        rw (readable_all s v, ok, readable_size-length s v) ran,
        used.valid,
        used.remaining ∙ drop_all n (contents s) (omega arith),
      )

  -- Another one is refused, and nothing of it is read.
  pub deserialize_rejects :
      (s : Stream)
      → IsValid s
      → fb.verify (contents s) ≡ false
      → deserialize_fb fb s ≡ throws (stream_exception "Stream exception") s
  unfolding deserialize_fb
  deserialize_rejects s v bad = rw (readable_all s v, bad)

  module _ ⦃memory : Memory⦄ where
    pub serialize_fb_lem :
        (a : A) (s : Stream)
        → IsValid s
        → s.written + length (fb.pack a) ≤ max_alloc
        → Puts (serialize_fb fb a) s (fb.pack a)
    unfolding serialize_fb
    serialize_fb_lem a s v h =
        let values = fb.pack a in
        let (t, ran, grown) = verify_output_lem s (length values) v h in
        let (u, ran', added) = write_lem t values grown.valid (omega (arith, grown.same_written)) in
        (
          u,
          >>=-returns (verify_output (length values)) (λ _. write values) s ran ∙ ran',
          record {
            valid = added.valid;
            appended =
                added.appended ∙ ap (λ bs. bs ++ values) (Grown-contents s (length values) t grown);
            same_read = added.same_read ∙ grown.same_read;
            advanced = omega (arith, added.advanced, grown.same_written);
          },
        )

    -- A FlatBuffers message that was written to an empty stream is read as the root of the buffer
    -- that was packed, and nothing is left, where the verification accepts what is packed; from
    -- any bytes that it refuses, deserialize throws and reads nothing.
    pub deserialize_fb-serialize_fb :
        (a : A) (s other : Stream)
        → IsValid s
        → contents s ≡ []
        → s.written + length (fb.pack a) ≤ max_alloc
        → fb.verify (fb.pack a) ≡ true
        → IsValid other
        → fb.verify (contents other) ≡ false
        → ((t : Stream) × (serialize_fb fb a s ≡ returns tt t)
            × Gets (deserialize_fb fb) t (fb.get_root (fb.pack a)) [])
          × (deserialize_fb fb other ≡ throws (stream_exception "Stream exception") other)
    deserialize_fb-serialize_fb a s other v none_yet fits accepted w refused =
        let (t, ran, added) = serialize_fb_lem a s v fits in
        let packed : contents t ≡ fb.pack a =
          added.appended ∙ ap (λ bs. bs ++ fb.pack a) none_yet in
        (
          (
            t,
            ran,
            subst (λ bytes. Gets (deserialize_fb fb) t (fb.get_root bytes) []) packed
                (deserialize_accepts t added.valid (ap fb.verify packed ∙ accepted)),
          ),
          deserialize_rejects other w refused,
        )
