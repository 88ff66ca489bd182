-- ===== src/Encoder/RoundTrip.antt =====
-- encode and decode of LibraryNet/Encoder.cpp, with a connection between them.
use dklibrary.Common.{
  ℕ, ◌+◌, ◌-◌, ◌^◌, ◌≤◌, ◌<◌, ◌≡◌, ap, ◌∙◌, arith, none, some, List, [], ◌++◌, length, returns,
  length-append,
}
use dklibrary.StreamBuf.{Memory, max_alloc}
use dklibrary.Stream.{Stream}
use dklibrary.Stream.Valid
use dklibrary.Stream.Codec.{le_bytes, to_u32}
use dklibrary.RecvQueue.{RecvQueue}
use dklibrary.RecvQueue.Valid.{IsValid, contents}
use dklibrary.RecvQueue.Arrival.{Arrives, Arrives-contents}
use dklibrary.Options.{Send}
use dklibrary.Message.{Message}
use dklibrary.Encoder.{Coding, encode, decode}
use dklibrary.Encoder.Contract.{IsCoding, Serializes}
use dklibrary.Encoder.Encoding.{frame, encode_lem}
use dklibrary.Encoder.Decoding.{decode_delivers}

nothing_received : IsValid []
nothing_received = record { in_order = tt; bounded = omega arith }

module _ ⦃memory : Memory⦄ where
  -- A message that was encoded is decoded at the other end: however its bytes, and those of `rest`
  -- behind them, are cut into chunks on the way, decode then returns a stream whose readable bytes
  -- are the message's number and its content, and leaves exactly `rest` in the queue. The two ends
  -- use one coding, and limitSize lets the frame's size pass.
  pub decode-encode :
      (c : Coding) (Sealed : List ℕ → List ℕ → Type 0) (m : Message) (options : Send)
      (body rest : List ℕ) (sent : Stream) (q : RecvQueue)
      → IsCoding c Sealed
      → Serializes m body
      → 6 + c.header_size + length body ≤ max_alloc
      → encode c m options ≡ returns tt sent
      → length (Valid.contents sent) < 2 ^ 32
      → c.limit_size (length (Valid.contents sent) - 4) ≡ none
      → Arrives [] (Valid.contents sent ++ rest) q
      → (s : Stream) × (q' : RecvQueue) × (decode c q ≡ returns (some s) q')
        × (Valid.contents s ≡ le_bytes 2 m.no ++ body)
        × (contents q' ≡ rest)
        × IsValid q'
        × Valid.IsValid s
  decode-encode c Sealed m options body rest sent q coding law room encoded word allowed arrives =
      let (t, payload, ran, valid, sealed, holds) =
        encode_lem c Sealed m options body coding law room in
      let same : sent ≡ t = cc in
      let wire : Valid.contents sent ≡ frame payload = ap Valid.contents same ∙ holds in
      let size = length-append (le_bytes 4 (to_u32 (length payload))) payload in
      let total : length (Valid.contents sent) ≡ 4 + length payload =
        omega (arith, ap length wire, size) in
      let passes : c.limit_size (length payload) ≡ none =
        ap c.limit_size
          (let e : length payload ≡ length (Valid.contents sent) - 4 = omega arith in e)
        ∙ allowed in
      let (v, received) = Arrives-contents arrives nothing_received in
      let (s, q', decoded, valid_stream, plain, v', left) =
        decode_delivers c Sealed coding (le_bytes 2 m.no ++ body) payload rest sealed q v
          (received ∙ ap (λ bs. bs ++ rest) wire)
          (omega (arith, length-append (le_bytes 2 m.no) body)) (omega arith) passes in
      (s, q', decoded, plain, left, v', valid_stream)
