-- ===== src/Encoder/Opening.antt =====
-- decode of LibraryNet/Encoder.cpp up to doDecode, where a whole frame has arrived.
use dklibrary.Common.{
  ℕ, ◌+◌, ◌^◌, ◌≤◌, ◌<◌, ◌≡◌, refl, ap, ◌∙◌, arith, none, some, List, ◌++◌, length, take,
  append_assoc, length-append, >>=-returns, ◌>>=◌, ret, if◌then◌else◌,
}
use dklibrary.StreamBuf.{Memory, max_alloc}
use dklibrary.Stream.{Stream}
use dklibrary.Stream.Valid
use dklibrary.Stream.Valid.{create_stream-IsValid}
use dklibrary.Stream.Codec.{le_bytes, of_le_bytes, to_u32}
use dklibrary.Stream.Codec.Scalar.{of_le_bytes-le_bytes}
use dklibrary.RecvQueue.{RecvQueue}
use dklibrary.RecvQueue.Valid.{IsValid, contents}
use dklibrary.Encoder.{
  Coding, check_size, on_stream, open_stream, enough, extract, decode_sized, decode,
}
use dklibrary.Encoder.Encoding.{frame}
use dklibrary.Encoder.Fetching.{>>=-same, extract_lem}
use dklibrary.Encoder.Validating.{
  size_field, validate_size-checks, check_size-fits, decode-sized, enough_complete,
}

module _ ⦃memory : Memory⦄ (c : Coding) (payload rest : List ℕ) (q : RecvQueue)
    (v : IsValid q) where
  -- With a size field and as many bytes as it says at the front, decode calls doDecode on a stream
  -- with those bytes, and the queue is left with what comes behind them.
  pub decode_takes :
      (field : List ℕ)
      → length field ≡ 4
      → c.header_size ≤ max_alloc
      → contents q ≡ field ++ (payload ++ rest)
      → size_field q ≡ length payload
      → 2 + c.header_size ≤ length payload
      → length payload < 2 ^ 32
      → c.limit_size (length payload) ≡ none
      → (s : Stream) × (q' : RecvQueue) × (decode c q
          ≡ (on_stream (open_stream c s) >>= λ s'. ret (some s')) q')
        × Valid.IsValid s
        × (Valid.contents s ≡ payload)
        × IsValid q'
        × (contents q' ≡ rest)
  unfolding decode_sized
  decode_takes field len header e announced numbered word allowed =
      let n = length payload in
      let total = length-append field (payload ++ rest) in
      let total' = length-append payload rest in
      let long : 6 + c.header_size ≤ length (contents q) =
        omega (arith, ap length e, total, total') in
      let checked =
        validate_size-checks c q v header long
        ∙ ap (λ k. check_size c k q) announced
        ∙ check_size-fits c q v header n allowed (omega arith) in
      let complete = enough_complete q n v word (omega (arith, ap length e, total, total')) in
      let (s, q', ran, valid, holds, valid', left) =
        extract_lem c payload rest q v field len e (omega arith) (omega arith) in
      let again =
        >>=-same (extract c n) (on_stream (open_stream c s)) (λ s'. ret (some s')) q q' ran in
      (
        s,
        q',
        decode-sized c q (some n) checked
            ∙ >>=-returns (enough n)
                (λ all_there. if all_there then (extract c n >>= λ s'. ret (some s')) else ret none)
                q complete
            ∙ again,
        valid,
        holds,
        valid',
        left,
      )

  -- The same at a frame.
  pub decode_opens :
      c.header_size ≤ max_alloc
      → contents q ≡ frame payload ++ rest
      → 2 + c.header_size ≤ length payload
      → length payload < 2 ^ 32
      → c.limit_size (length payload) ≡ none
      → (s : Stream) × (q' : RecvQueue) × (decode c q
          ≡ (on_stream (open_stream c s) >>= λ s'. ret (some s')) q')
        × Valid.IsValid s
        × (Valid.contents s ≡ payload)
        × IsValid q'
        × (contents q' ≡ rest)
  decode_opens header e numbered word allowed =
      let n = length payload in
      let field = le_bytes 4 (to_u32 n) in
      let e' = e ∙ append_assoc field payload rest in
      let announced : size_field q ≡ n =
        ap (λ bs. of_le_bytes (take 4 bs)) e'
        ∙ of_le_bytes-le_bytes 4 (to_u32 n) (omega arith)
        ∙ (let whole : to_u32 n ≡ n = omega arith in whole) in
      decode_takes field refl header e' announced numbered word allowed
