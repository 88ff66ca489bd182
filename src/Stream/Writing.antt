-- ===== src/Stream/Writing.antt =====
-- What write and commit of LibraryBase/Stream.h do.
use dklibrary.Common.{
  ℕ, ◌+◌, ◌≤◌, ◌<◌, ◌≡◌, refl, ap, ◌∙◌, arith, List, ◌++◌, length, take, drop, ltb, Bool-cases, inl,
  inr, ltb→lt, ltb→ge, returns, le→leb, length-take, length-drop, take-add, take-append_exact,
  ◌>>=◌, ◌>>◌,
}
use dklibrary.Common.Word.{add64, sub64, add64-eq}
use dklibrary.StreamBuf.{Memory, max_alloc, next_pow2, allocate}
use dklibrary.StreamBuf.Growth.{length-overwrite, take-realloc, allocate-grows, allocate-IsSound}
use dklibrary.StreamBuf.Rounding.{le-next_pow2}
use dklibrary.Stream.{
  Stream, commit, verify_output, write, write_blank, store, stream_of, create_stream,
}
use dklibrary.Stream.Valid.{
  IsValid, contents, take-overwrite, contents-append, create_stream-IsValid,
}

-- `t` is `s` with room for `n` more bytes, and with what was written in it.
pub record Grown (s : Stream) (n : ℕ) (t : Stream) : Type 0 where
  pub valid : IsValid t
  pub same_read : t.read ≡ s.read
  pub same_written : t.written ≡ s.written
  pub fits : s.written + n ≤ t.buf.size
  pub kept : take s.written t.buf.bytes ≡ take s.written s.buf.bytes

-- `t` is `s` with `values` behind what could be read.
pub record Appended (s : Stream) (values : List ℕ) (t : Stream) : Type 0 where
  pub valid : IsValid t
  pub appended : contents t ≡ contents s ++ values
  pub same_read : t.read ≡ s.read
  pub advanced : t.written ≡ s.written + length values

pub commit_lem :
    (s : Stream) (n : ℕ)
    → s.written + n ≤ s.buf.size
    → s.buf.size ≤ max_alloc
    → commit n s ≡ returns tt (record s { written = s.written + n })
unfolding commit
commit_lem s n h bound =
    let sum : add64 s.written n ≡ s.written + n = add64-eq s.written n (omega arith) in
    rw (sum, le→leb (s.written + n) s.buf.size h)

pub Grown-contents : (s : Stream) (n : ℕ) (t : Stream) → Grown s n t → contents t ≡ contents s
Grown-contents s n t g = cc

-- commit: the bytes behind the write cursor become readable.
pub commit-Appended :
    (s : Stream) (n : ℕ)
    → IsValid s
    → s.written + n ≤ s.buf.size
    → Appended s (take n (drop s.written s.buf.bytes)) (record s { written = s.written + n })
commit-Appended s n v h = record {
  valid = record { order = omega arith; room = h; sound = v.sound };
  appended =
      ap (drop s.read) (take-add s.written n s.buf.bytes)
      ∙ contents-append s (take n (drop s.written s.buf.bytes)) v;
  same_read = refl;
  advanced =
      omega (arith, length-take n (drop s.written s.buf.bytes), length-drop s.written s.buf.bytes);
}

pub store-Appended :
    (s t : Stream) (values : List ℕ)
    → IsValid s
    → Grown s (length values) t
    → Appended s values (record (store values t) { written = t.written + length values })
store-Appended s t values v g =
    let block = length-overwrite t.buf.bytes t.written values (omega arith) in
    record {
      valid = record {
        order = omega arith;
        room = omega arith;
        sound = record { block = omega (arith, block); bounded = omega arith };
      };
      appended =
          ap (drop t.read) (take-overwrite t.buf.bytes t.written values (omega arith))
          ∙ contents-append t values g.valid
          ∙ ap (λ bs. bs ++ values) (Grown-contents s (length values) t g);
      same_read = g.same_read;
      advanced = omega arith;
    }

module _ ⦃memory : Memory⦄ where
  allocate-Grown :
      (s : Stream) (n : ℕ)
      → IsValid s
      → s.written + n ≤ max_alloc
      → s.buf.size < s.written + n
      → Grown s n (record s { buf = allocate s.buf (s.written + n) })
  allocate-Grown s n v h more =
      let room = le-next_pow2 (s.written + n) h in
      let grown = allocate-grows s.buf (s.written + n) (omega arith) in
      let sound = allocate-IsSound s.buf (s.written + n) v.sound h in
      let fits : s.written + n ≤ (allocate s.buf (s.written + n)).size = rw grown room in
      record {
        valid = record { order = v.order; room = omega arith; sound = sound };
        same_read = refl;
        same_written = refl;
        fits = fits;
        kept = rw grown (
            take-realloc s.buf.bytes (next_pow2 (s.written + n)) s.written (omega arith)
              (omega arith));
      }

  -- OStreamVerifier::verify makes room and keeps what was written.
  pub verify_output_lem :
      (s : Stream) (n : ℕ)
      → IsValid s
      → s.written + n ≤ max_alloc
      → (t : Stream) × (verify_output n s ≡ returns tt t) × Grown s n t
  unfolding verify_output
  verify_output_lem s n v h = elim (Bool-cases (ltb (sub64 s.buf.size s.written) n)) [
    | inl short ↦
        let sum : add64 s.written n ≡ s.written + n = add64-eq s.written n (omega arith) in
        let wants : s.buf.size < s.written + n = omega (arith, ltb→lt _ _ short) in
        (
          record s { buf = allocate s.buf (s.written + n) },
          rw (short, sum),
          allocate-Grown s n v h wants,
        )
    | inr enough ↦ (
      s,
      rw enough,
      record {
        valid = v;
        same_read = refl;
        same_written = refl;
        fits = omega (arith, ltb→ge _ _ enough);
        kept = refl;
      },
    )
  ]

  -- The stream that a write leaves, from the one with room for it.
  abbrev pub filled : List ℕ → Stream → Stream
  filled values t = record (store values t) { written = t.written + length values }

  pub write-Grown :
      (s : Stream) (values : List ℕ)
      → IsValid s
      → s.written + length values ≤ max_alloc
      → (t : Stream) × (write values s ≡ returns tt (filled values t)) × Grown s (length values) t
  unfolding write
  write-Grown s values v h =
      let (t, ran, grown) = verify_output_lem s (length values) v h in
      (
        t,
        rw (ran, ◌>>=◌, ◌>>◌)
            (commit_lem (store values t) (length values) (omega arith) (omega arith)),
        grown,
      )

  -- The bytes in front of the write cursor stay.
  pub filled_kept :
      (s t : Stream) (values : List ℕ)
      → Grown s (length values) t
      → take s.written (filled values t).buf.bytes ≡ take s.written s.buf.bytes
  filled_kept s t values g =
      let front = take t.written t.buf.bytes in
      let len : length front ≡ s.written =
        omega (arith, length-take t.written t.buf.bytes, g.valid.sound.block) in
      rw (← len) (take-append_exact front (values ++ drop (t.written + length values) t.buf.bytes))
      ∙ ap (λ n. take n t.buf.bytes) g.same_written
      ∙ g.kept

  -- A write within the bound succeeds: what can be read grows by the bytes written, at its end.
  pub write_lem :
      (s : Stream) (values : List ℕ)
      → IsValid s
      → s.written + length values ≤ max_alloc
      → (t : Stream) × (write values s ≡ returns tt t) × Appended s values t
  write_lem s values v h =
      let (t, ran, grown) = write-Grown s values v h in
      (filled values t, ran, store-Appended s t values v grown)

  -- write(size): the stream grows by `n` bytes that nobody has set.
  pub write_blank_lem :
      (s : Stream) (n : ℕ)
      → IsValid s
      → s.written + n ≤ max_alloc
      → (t : Stream) × (values : List ℕ) × (write_blank n s ≡ returns tt t)
        × (length values ≡ n)
        × Appended s values t
  unfolding write_blank
  write_blank_lem s n v h =
      let (t, ran, grown) = verify_output_lem s n v h in
      let added = commit-Appended t n grown.valid (omega arith) in
      (
        record t { written = t.written + n },
        take n (drop t.written t.buf.bytes),
        rw (ran, ◌>>=◌, ◌>>◌) (commit_lem t n (omega arith) (omega arith)),
        omega
            (arith, length-take n (drop t.written t.buf.bytes), length-drop t.written t.buf.bytes),
        record {
          valid = added.valid;
          appended =
              added.appended
              ∙ ap (λ bs. bs ++ take n (drop t.written t.buf.bytes)) (Grown-contents s n t grown);
          same_read = grown.same_read;
          advanced = omega (arith, added.advanced);
        },
      )

  -- Stream(const void*, size) holds the bytes that it was given.
  pub stream_of_lem :
      (values : List ℕ)
      → length values ≤ max_alloc
      → (t : Stream) × (stream_of values ≡ returns tt t) × IsValid t × (contents t ≡ values)
  unfolding stream_of
  stream_of_lem values h =
      let (valid, none_yet, room, start) = create_stream-IsValid (length values) h in
      let (t, ran, added) = write_lem (create_stream (length values)) values valid (omega arith) in
      (t, ran, added.valid, added.appended ∙ ap (λ bs. bs ++ values) none_yet)
