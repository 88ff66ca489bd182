-- ===== src/Encoder/Decoding.antt =====
-- decode of LibraryNet/Encoder.cpp, where a whole frame has arrived.
use dklibrary.Common.{
  ℕ, ◌^◌, ◌≤◌, ◌<◌, ◌≡◌, ap, ◌∙◌, arith, none, some, List, ◌++◌, length, returns, >>=-returns,
  ◌>>=◌, ret,
}
use dklibrary.StreamBuf.{Memory}
use dklibrary.Stream.{Stream, consume}
use dklibrary.Stream.Valid
use dklibrary.Stream.Valid.{create_stream-IsValid}
use dklibrary.Stream.Codec.Laws.{consume_front}
use dklibrary.RecvQueue.{RecvQueue}
use dklibrary.RecvQueue.Valid.{IsValid, contents}
use dklibrary.Encoder.{Coding, on_stream, open_stream, decode}
use dklibrary.Encoder.Contract.{IsCoding}
use dklibrary.Encoder.Encoding.{frame}
use dklibrary.Encoder.Opening.{decode_opens}

open_stream_lem :
    (c : Coding) (Sealed : List ℕ → List ℕ → Type 0) (s : Stream) (plain payload : List ℕ)
    → IsCoding c Sealed
    → Sealed plain payload
    → Valid.IsValid s
    → Valid.contents s ≡ payload
    → (t : Stream) × (open_stream c s ≡ returns tt t) × Valid.IsValid t × (Valid.contents t ≡ plain)
unfolding open_stream
open_stream_lem c Sealed s plain payload coding sealed v e =
    let (t, header, ran, valid, holds, len) = coding.unseal s plain payload sealed v e in
    let (u, ran', valid', left) = consume_front t c.header_size header plain len valid holds in
    (u, >>=-returns c.do_decode (λ _. consume c.header_size) s ran ∙ ran', valid', left)

module _ ⦃memory : Memory⦄ where
  -- With a whole frame at the front of a valid queue, decode returns a stream whose readable bytes
  -- are the plain content, and takes exactly that frame off the queue. The payload of the frame is
  -- what the coding makes of the plain content, and has less than 2 ^ 32 bytes; the plain content has
  -- the two bytes of the number at least, and limitSize lets the size of the payload pass.
  pub decode_delivers :
      (c : Coding) (Sealed : List ℕ → List ℕ → Type 0)
      → IsCoding c Sealed
      → (plain payload rest : List ℕ) → Sealed plain payload
      → (q : RecvQueue) → IsValid q
      → contents q ≡ frame payload ++ rest
      → 2 ≤ length plain
      → length payload < 2 ^ 32
      → c.limit_size (length payload) ≡ none
      → (s : Stream) × (q' : RecvQueue) × (decode c q ≡ returns (some s) q')
        × Valid.IsValid s
        × (Valid.contents s ≡ plain)
        × IsValid q'
        × (contents q' ≡ rest)
  decode_delivers c Sealed coding plain payload rest sealed q v e numbered word allowed =
      let least = coding.sealed_size plain payload sealed in
      let (s, q', ran, valid, holds, valid', left) =
        decode_opens c payload rest q v coding.small_header e (omega arith) word allowed in
      let (t, opened, valid_t, plain_left) =
        open_stream_lem c Sealed s plain payload coding sealed valid holds in
      (
        t,
        q',
        ran ∙ ap (λ o. (on_stream o >>= λ s'. ret (some s')) q') opened,
        valid_t,
        plain_left,
        valid',
        left,
      )
