-- ===== src/Encoder/Encoding.antt =====
-- encode of LibraryNet/Encoder.cpp.
use dklibrary.Common.{
  ℕ, ◌+◌, ◌-◌, ◌≤◌, ◌<◌, ◌^◌, ◌≡◌, sym, ap, ◌∙◌, arith, List, ◌++◌, length, take, drop, M, returns,
  length-append, length-take, take-append_right, drop-append_exact, drop-take, >>=-returns, modify,
  ◌>>◌, append_assoc,
}
use dklibrary.Common.Word.{sub64}
use dklibrary.StreamBuf.{Memory, max_alloc, overwrite}
use dklibrary.StreamBuf.Growth.{length-overwrite}
use dklibrary.Stream.{Stream, write_blank, create_stream}
use dklibrary.Stream.Valid.{IsValid, contents, length-contents, create_stream-IsValid}
use dklibrary.Stream.Writing.{Appended, write_blank_lem}
use dklibrary.Stream.Codec.{le_bytes, to_u32, put_scalar}
use dklibrary.Stream.Codec.Laws.{Appended-trans}
use dklibrary.Stream.Codec.Scalar.{scalar-IsCodec}
use dklibrary.Options.{Send}
use dklibrary.Message.{Message}
use dklibrary.Encoder.{Coding, set_size, encode}
use dklibrary.Encoder.Contract.{Framed, IsCoding, Serializes}

-- A frame on the wire.
abbrev pub frame : List ℕ → List ℕ
frame payload = le_bytes 4 (to_u32 (length payload)) ++ payload

-- A memcpy to the front of what can be read.
overwrite_front :
    (bytes field body values : List ℕ) (written : ℕ)
    → take written bytes ≡ field ++ body
    → length values ≡ length field
    → take written (overwrite bytes 0 values) ≡ values ++ body
overwrite_front bytes field body values written e len =
    let k = length values in
    let within : k ≤ written =
      omega (arith, ap length e, length-append field body, length-take written bytes) in
    take-append_right written values (drop (0 + k) bytes) within
    ∙ ap (λ bs. values ++ bs)
        (ap (λ j. take (written - k) (drop j bytes)) (let same : 0 + k ≡ k = omega arith in same)
          ∙ sym (drop-take k written bytes)
          ∙ ap (drop k) e
          ∙ ap (λ j. drop j (field ++ body)) len
          ∙ drop-append_exact field body)

-- setSize replaces the size field by the length of the rest.
pub set_size_lem :
    (s : Stream) (payload : List ℕ)
    → Framed s payload
    → IsValid (set_size s) × (contents (set_size s) ≡ frame payload)
unfolding set_size
set_size_lem s payload f =
    let valid = f.valid in
    let front : take s.written s.buf.bytes ≡ f.size_field ++ payload =
      sym (ap (λ k. drop k (take s.written s.buf.bytes)) f.unread) ∙ f.framed in
    let total : s.written ≡ 4 + length payload =
      omega
        (arith, length-contents s valid, ap length f.framed, length-append f.size_field payload) in
    let n : sub64 s.written 4 ≡ length payload = omega arith in
    let values = le_bytes 4 (to_u32 (sub64 s.written 4)) in
    let kept = length-overwrite s.buf.bytes 0 values (omega arith) in
    (
      record {
        order = valid.order;
        room = valid.room;
        sound = record { block = kept ∙ valid.sound.block; bounded = valid.sound.bounded };
      },
      ap (λ k. drop k (take s.written (overwrite s.buf.bytes 0 values))) f.unread
          ∙ overwrite_front s.buf.bytes f.size_field payload values s.written front
              (sym f.field_length)
          ∙ ap (λ k. le_bytes 4 (to_u32 k) ++ payload) n,
    )

module _ ⦃memory : Memory⦄ where
  -- What encode has written when it calls serialize.
  pub written_before_serialize :
      (c : Coding) (m : Message) (k : M Stream (Unit {0}))
      → m.no < 2 ^ 16
      → m.reserved ≤ max_alloc
      → 6 + c.header_size ≤ max_alloc
      → (t : Stream) × (field : List ℕ) × (header : List ℕ) × ((write_blank 4
              >> (write_blank c.header_size >> (put_scalar 2 m.no >> k)))
            (create_stream m.reserved)
          ≡ k t)
        × (length field ≡ 4)
        × (length header ≡ c.header_size)
        × Appended (create_stream m.reserved) (field ++ (header ++ le_bytes 2 m.no)) t
        × (t.written ≡ 6 + c.header_size)
  written_before_serialize c m k no_fits reserved_fits room =
      let s = create_stream m.reserved in
      let (v, unread, _, start) = create_stream-IsValid m.reserved reserved_fits in
      let (t1, field, ran1, len1, a1) = write_blank_lem s 4 v (omega arith) in
      let (t2, header, ran2, len2, a2) =
        write_blank_lem t1 c.header_size a1.valid (omega (arith, a1.advanced)) in
      let (t3, ran3, a3) =
        (scalar-IsCodec 2).put_lem m.no t2 (omega (arith, no_fits)) a2.valid
          (omega (arith, a1.advanced, a2.advanced)) in
      let number = le_bytes 2 m.no in
      (
        t3,
        field,
        header,
        >>=-returns (write_blank 4) (λ _. write_blank c.header_size >> (put_scalar 2 m.no >> k)) s
              ran1
            ∙ >>=-returns (write_blank c.header_size) (λ _. put_scalar 2 m.no >> k) t1 ran2
            ∙ >>=-returns (put_scalar 2 m.no) (λ _. k) t2 ran3,
        len1,
        len2,
        Appended-trans field (header ++ number) a1 (Appended-trans header number a2 a3),
        omega (arith, start, a1.advanced, a2.advanced, a3.advanced),
      )

  -- What encode has written when it calls doEncode.
  pub written_before_seal :
      (c : Coding) (m : Message) (body : List ℕ) (k : M Stream (Unit {0}))
      → Serializes m body
      → 6 + c.header_size + length body ≤ max_alloc
      → (t : Stream) × (header : List ℕ) × ((write_blank 4
              >> (write_blank c.header_size >> (put_scalar 2 m.no >> (m.serialize >> k))))
            (create_stream m.reserved)
          ≡ k t)
        × (length header ≡ c.header_size)
        × Framed t (header ++ (le_bytes 2 m.no ++ body))
  written_before_seal c m body k law room =
      let s = create_stream m.reserved in
      let (v, unread, _, start) = create_stream-IsValid m.reserved law.reserved_fits in
      let (t, field, header, ran, len1, len2, a, so_far) =
        written_before_serialize c m (m.serialize >> k) law.no_fits law.reserved_fits
          (omega arith) in
      let (u, ran', a') = law.writes t a.valid (omega (arith, so_far)) in
      let number = le_bytes 2 m.no in
      let whole : Appended s ((field ++ (header ++ number)) ++ body) u =
        Appended-trans (field ++ (header ++ number)) body a a' in
      let shape : (field ++ (header ++ number)) ++ body ≡ field ++ (header ++ (number ++ body)) =
        append_assoc field (header ++ number) body
        ∙ ap (λ bs. field ++ bs) (append_assoc header number body) in
      (
        u,
        header,
        ran ∙ >>=-returns m.serialize (λ _. k) t ran',
        len2,
        record {
          valid = whole.valid;
          unread = omega (arith, whole.same_read, v.order);
          size_field = field;
          field_length = len1;
          framed =
              whole.appended
              ∙ ap (λ bs. bs ++ ((field ++ (header ++ number)) ++ body)) unread
              ∙ shape;
        },
      )

  -- encode succeeds: the stream holds one frame, whose payload stands for the message's number and
  -- content.
  pub encode_lem :
      (c : Coding) (Sealed : List ℕ → List ℕ → Type 0) (m : Message) (options : Send)
      (body : List ℕ)
      → IsCoding c Sealed
      → Serializes m body
      → 6 + c.header_size + length body ≤ max_alloc
      → (t : Stream) × (payload : List ℕ) × (encode c m options ≡ returns tt t)
        × IsValid t
        × Sealed (le_bytes 2 m.no ++ body) payload
        × (contents t ≡ frame payload)
  unfolding encode
  encode_lem c Sealed m options body coding law room =
      let (t, header, ran, len, framed) =
        written_before_seal c m body (c.do_encode options >> modify set_size) law room in
      let (u, payload, ran', framed', sealed) =
        coding.seal options t header (le_bytes 2 m.no ++ body) len framed in
      let (valid, holds) = set_size_lem u payload framed' in
      (
        set_size u,
        payload,
        ran ∙ >>=-returns (c.do_encode options) (λ _. modify set_size) t ran',
        valid,
        sealed,
        holds,
      )
