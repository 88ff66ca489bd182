-- ===== src/Encoder/Connection.antt =====
-- A connection on which one end encodes messages, one after another, and the other end receives the
-- bytes and calls decode as often as it likes.
pub mod Delivery
pub mod Transmission
pub mod EndToEnd
use dklibrary.Common.{
  ℕ, ◌+◌, ◌-◌, ◌^◌, ◌≤◌, ◌<◌, ◌≡◌, inl, inr, refl, sym, ap, ◌∙◌, arith, none, some, Option, List,
  [], ◌∷◌, ◌++◌, length, returns, append_assoc, append-nil, length-append, subst,
}
use dklibrary.StreamBuf.{Memory, max_alloc}
use dklibrary.Stream.{Stream}
use dklibrary.Stream.Valid
use dklibrary.Stream.Codec.{le_bytes, to_u32}
use dklibrary.RecvQueue.{RecvQueue}
use dklibrary.RecvQueue.Valid.{IsValid, contents, total_alloc}
use dklibrary.RecvQueue.Arrival.{Arrives, Arrives-contents}
use dklibrary.Options.{Send}
use dklibrary.Message.{Message}
use dklibrary.Encoder.{Coding, encode, decode}
use dklibrary.Encoder.Contract.{IsCoding, Serializes}
use dklibrary.Encoder.Encoding.{frame, encode_lem}
use dklibrary.Encoder.Validating.{decode-short}
use dklibrary.Encoder.Front.{IsFrame, decode_front}

-- A message with the content that it writes, and the stream that encode has made of it.
pub record Sent : Type 0 where
  pub message : Message
  pub options : Send
  pub body : List ℕ
  pub stream : Stream

-- What is on the wire for it, and what its receiver is to get: the number and the content.
abbrev pub plain : Sent → List ℕ
plain m = le_bytes 2 m.message.no ++ m.body

abbrev pub wires : List Sent → List ℕ
wires [] = []
wires (m ∷ ms) = Valid.contents m.stream ++ wires ms

abbrev pub plains : List Sent → List (List ℕ)
plains [] = []
plains (m ∷ ms) = plain m ∷ plains ms

-- What one call of decode hands over.
abbrev pub handed_over : Option Stream → List (List ℕ)
handed_over none = []
handed_over (some s) = Valid.contents s ∷ []

module _ ⦃memory : Memory⦄ where
  -- encode has returned the stream, and the other end's limitSize lets the frame pass.
  pub record IsSent (c : Coding) (m : Sent) : Type 0 where
    pub law : Serializes m.message m.body
    pub room : 6 + c.header_size + length m.body ≤ max_alloc
    pub encoded : encode c m.message m.options ≡ returns tt m.stream
    pub word : length (Valid.contents m.stream) < 2 ^ 32
    pub allowed : c.limit_size (length (Valid.contents m.stream) - 4) ≡ none

  abbrev pub AllSent : Coding → List Sent → Type 0
  AllSent c [] = Unit
  AllSent c (m ∷ ms) = IsSent c m × AllSent c ms

  -- The receiver's history: the bytes that have arrived since the start, the queue now, and the
  -- contents of the streams that decode has returned.
  pub data Receives (c : Coding) : List ℕ → RecvQueue → List (List ℕ) → Type 0 where
    opened : Receives c [] [] []
    arrives :
        {wire bytes all : List ℕ} {p r : RecvQueue} {got : List (List ℕ)}
        → Receives c wire p got
        → Arrives p bytes r
        → all ≡ wire ++ bytes
        → Receives c all r got
    decodes :
        {wire : List ℕ} {p r : RecvQueue} {got all : List (List ℕ)} (found : Option Stream)
        → Receives c wire p got
        → total_alloc p + max_alloc < 2 ^ 63
        → decode c p ≡ returns found r
        → all ≡ got ++ handed_over found
        → Receives c wire r all
