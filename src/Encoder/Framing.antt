-- ===== src/Encoder/Framing.antt =====
-- encode of LibraryNet/Encoder.cpp on every branch: serialize and doEncode may throw.
use dklibrary.Common.{
  ℕ, ◌+◌, ◌^◌, ◌≤◌, ◌<◌, ◌≡◌, ◌⊎◌, inl, inr, refl, arith, List, ◌++◌, length, Outcome, returns,
  throws, Fault, M, modify, ◌>>=◌, ◌>>◌,
}
use dklibrary.StreamBuf.{Memory, max_alloc}
use dklibrary.Stream.{Stream}
use dklibrary.Stream.Valid.{IsValid, contents}
use dklibrary.Stream.Codec.{le_bytes}
use dklibrary.Options.{Send}
use dklibrary.Message.{Message}
use dklibrary.Encoder.{Coding, set_size, encode}
use dklibrary.Encoder.Contract.{Framed, Serializes}
use dklibrary.Encoder.Encoding.{frame, set_size_lem, written_before_serialize, written_before_seal}

-- What the message's serialize does: it writes a body, or throws on every stream.
abbrev pub Serializing : Message → Fault ⊎ List ℕ → Type 0
Serializing m (inr body) = Serializes m body
Serializing m (inl e) = (s : Stream) → IsValid s → (t : Stream) × (m.serialize s ≡ throws e t)

-- What doEncode does to the header and the plain content: it gives a payload, or throws.
abbrev pub Seals : Outcome Stream (Unit {0}) → Fault ⊎ List ℕ → Type 0
Seals (returns _ t) (inr payload) = Framed t payload
Seals (throws e t) (inl f) = e ≡ f
Seals _ _ = ⊥

-- The payload of a message, from the header, the number and what serialize does.
abbrev pub payload_of : (List ℕ → Fault ⊎ List ℕ) → List ℕ → ℕ → Fault ⊎ List ℕ → Fault ⊎ List ℕ
payload_of sealing header number (inl e) = inl e
payload_of sealing header number (inr body) = sealing (header ++ (le_bytes 2 number ++ body))

abbrev pub length_of : Fault ⊎ List ℕ → ℕ
length_of (inl e) = 0
length_of (inr body) = length body

-- The stream holds one frame, or the same exception is thrown.
abbrev pub Frames : Outcome Stream (Unit {0}) → Fault ⊎ List ℕ → Type 0
Frames (returns _ t) (inr payload) = IsValid t × (contents t ≡ frame payload)
Frames (throws e t) (inl f) = e ≡ f
Frames _ _ = ⊥

module _ ⦃memory : Memory⦄ (c : Coding) (m : Message) (options : Send) where
  sealed_frame :
      (t : Stream) (o : Outcome Stream (Unit {0})) (r : Fault ⊎ List ℕ)
      → c.do_encode options t ≡ o
      → Seals o r
      → Frames ((c.do_encode options >> modify set_size) t) r
  sealed_frame t (returns tt u) (inr payload) ran framed =
      rw (◌>>◌, ◌>>=◌, ran) (set_size_lem u payload framed)
  sealed_frame t (returns _ u) (inl f) ran h = absurd h
  sealed_frame t (throws e u) (inr payload) ran h = absurd h
  sealed_frame t (throws e u) (inl f) ran same = rw (◌>>◌, ◌>>=◌, ran) same

  stopped :
      (t u : Stream) (e : Fault) (k : M Stream (Unit {0}))
      → m.serialize t ≡ throws e u
      → Frames ((m.serialize >> k) t) (inl e)
  stopped t u e k ran = rw (◌>>◌, ◌>>=◌, ran) refl

  -- encode does what `payload_of` says, on every branch: what serialize throws, and what doEncode
  -- throws, encode throws; otherwise the stream holds one frame, of the payload that doEncode makes of
  -- the header, the number and the content. serialize and doEncode do what `serialized` and `sealing`
  -- say, on every valid stream with room for it, and the frame fits into 2 ^ 48 bytes. What the
  -- header holds is not set by encode.
  pub encode-Frames :
      (sealing : List ℕ → Fault ⊎ List ℕ) (serialized : Fault ⊎ List ℕ)
      → m.no < 2 ^ 16
      → m.reserved ≤ max_alloc
      → Serializing m serialized
      → 6 + c.header_size + length_of serialized ≤ max_alloc
      → ((s : Stream) (body : List ℕ)
          → Framed s body
          → Seals (c.do_encode options s) (sealing body))
      → (header : List ℕ) × (length header ≡ c.header_size)
        × Frames (encode c m options) (payload_of sealing header m.no serialized)
  unfolding encode
  encode-Frames sealing (inl e) no_fits reserved_fits failing room seals =
      let k = m.serialize >> (c.do_encode options >> modify set_size) in
      let (t, _, header, ran, _, len, a, _) =
        written_before_serialize c m k no_fits reserved_fits (omega arith) in
      let (u, failed) = failing t a.valid in
      (header, len, rw ran (stopped t u e (c.do_encode options >> modify set_size) failed))
  encode-Frames sealing (inr body) no_fits reserved_fits law room seals =
      let k = c.do_encode options >> modify set_size in
      let (t, header, ran, len, framed) = written_before_seal c m body k law room in
      let content = header ++ (le_bytes 2 m.no ++ body) in
      (
        header,
        len,
        rw ran (
            sealed_frame t (c.do_encode options t) (sealing content) refl (seals t content framed)),
      )
