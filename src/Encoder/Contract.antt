-- ===== src/Encoder/Contract.antt =====
-- What an encoder's virtual methods have to do for a frame to come back: doEncode turns the header
-- and the plain content into a payload and leaves the size field alone in length, and doDecode turns
-- the payload into a header and the plain content again.
use dklibrary.Common.{ℕ, ◌+◌, ◌≤◌, ◌≡◌, List, ◌++◌, length, returns, ◌<◌, ◌^◌}
use dklibrary.StreamBuf.{max_alloc}
use dklibrary.Stream.{Stream}
use dklibrary.Stream.Valid.{IsValid, contents}
use dklibrary.Options.{Send}
use dklibrary.Message.{Message}
use dklibrary.Stream.Codec.Laws.{Puts}
use dklibrary.Encoder.{Coding}

-- Nothing has been read, and the readable bytes are a size field, still to be set, and `body`.
pub record Framed (s : Stream) (body : List ℕ) : Type 0 where
  pub valid : IsValid s
  pub unread : s.read ≡ 0
  pub size_field : List ℕ
  pub field_length : length size_field ≡ 4
  pub framed : contents s ≡ size_field ++ body

-- `Sealed options plain payload`: the payload stands for the plain content.
pub record IsCoding (c : Coding) (Sealed : List ℕ → List ℕ → Type 0) : Type 0 where
  pub seal :
      (options : Send) (s : Stream) (header plain : List ℕ)
      → length header ≡ c.header_size
      → Framed s (header ++ plain)
      → (t : Stream) × (payload : List ℕ) × (c.do_encode options s ≡ returns tt t)
        × Framed t payload
        × Sealed plain payload
  pub unseal :
      (s : Stream) (plain payload : List ℕ)
      → Sealed plain payload
      → IsValid s
      → contents s ≡ payload
      → (t : Stream) × (header : List ℕ) × (c.do_decode s ≡ returns tt t)
        × IsValid t
        × (contents t ≡ header ++ plain)
        × (length header ≡ c.header_size)
  -- A payload has room for the header and the content.
  pub sealed_size :
      (plain payload : List ℕ)
      → Sealed plain payload
      → c.header_size + length plain ≤ length payload
  pub small_header : c.header_size ≤ max_alloc

-- The message's serialize writes `body`.
pub record Serializes (m : Message) (body : List ℕ) : Type 0 where
  pub writes :
      (s : Stream) → IsValid s → s.written + length body ≤ max_alloc → Puts m.serialize s body
  pub no_fits : m.no < 2 ^ 16
  pub reserved_fits : m.reserved ≤ max_alloc
