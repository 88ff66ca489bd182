-- ===== src/Stream/Valid.antt =====
-- The invariant of `Stream` and the bytes that a reader of it will see.
use dklibrary.Common.{
  ℕ, ◌+◌, ◌-◌, ◌≤◌, ◌≡◌, refl, arith, List, [], ◌++◌, length, take, drop, length-take, length-drop,
  take-append_right, take-append_exact, drop-append_left, drop-append_right, ap, ◌∙◌,
}
use dklibrary.StreamBuf.{Memory, max_alloc, overwrite}
use dklibrary.StreamBuf.Growth.{IsSound, create-IsSound}
use dklibrary.Stream.{Stream, create_stream, reset}

pub record IsValid (s : Stream) : Type 0 where
  pub order : s.read ≤ s.written
  pub room : s.written ≤ s.buf.size
  pub sound : IsSound s.buf

-- The readable bytes.
abbrev pub contents : Stream → List ℕ
contents s = drop s.read (take s.written s.buf.bytes)

pub length-contents : (s : Stream) → IsValid s → length (contents s) ≡ s.written - s.read
length-contents s v =
    rw (length-drop s.read (take s.written s.buf.bytes), length-take s.written s.buf.bytes)
      (omega arith)

-- After a memcpy to the write cursor the bytes up to its end are the old ones and the new.
pub take-overwrite :
    (bytes : List ℕ) (offset : ℕ) (values : List ℕ)
    → offset ≤ length bytes
    → take (offset + length values) (overwrite bytes offset values) ≡ take offset bytes ++ values
take-overwrite bytes offset values h =
    let len : length (take offset bytes) ≡ offset = omega (arith, length-take offset bytes) in
    let rest = drop (offset + length values) bytes in
    take-append_right (offset + length values) (take offset bytes) (values ++ rest) (omega arith)
    ∙ ap (λ n. take offset bytes ++ take n (values ++ rest))
        (let e : offset + length values - length (take offset bytes) ≡ length values =
            omega arith in
          e)
    ∙ ap (λ vs. take offset bytes ++ vs) (take-append_exact values rest)

pub drop-overwrite :
    (bytes : List ℕ) (offset : ℕ) (values : List ℕ)
    → offset ≤ length bytes
    → drop offset (overwrite bytes offset values) ≡ values ++ drop (offset + length values) bytes
drop-overwrite bytes offset values h =
    let len : length (take offset bytes) ≡ offset = omega (arith, length-take offset bytes) in
    let rest = values ++ drop (offset + length values) bytes in
    drop-append_right offset (take offset bytes) rest (omega arith)
    ∙ ap (λ n. drop n rest) (let e : offset - length (take offset bytes) ≡ 0 = omega arith in e)

-- The part of the block in front of the read cursor is not read.
pub contents-append :
    (s : Stream) (values : List ℕ)
    → IsValid s
    → drop s.read (take s.written s.buf.bytes ++ values) ≡ contents s ++ values
contents-append s values v =
    drop-append_left s.read (take s.written s.buf.bytes) values
      (omega (arith, length-take s.written s.buf.bytes))

module _ ⦃memory : Memory⦄ where
  pub create_stream-IsValid :
      (n : ℕ)
      → n ≤ max_alloc
      → IsValid (create_stream n)
        × (contents (create_stream n) ≡ [])
        × (n ≤ (create_stream n).buf.size)
        × ((create_stream n).written ≡ 0)
  unfolding create_stream
  create_stream-IsValid n h =
      let made = create-IsSound n h in
      (record { order = omega arith; room = omega arith; sound = made.0 }, refl, made.1, refl)

pub reset-IsValid : (s : Stream) → IsValid s → IsValid (reset s) × (contents (reset s) ≡ [])
reset-IsValid s v = (record { order = omega arith; room = omega arith; sound = v.sound }, refl)
