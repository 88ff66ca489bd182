-- ===== src/MessageHandler/Delivery.antt =====
-- From the send of a message to the callback of its handler: encode and decode of
-- LibraryNet/Encoder.cpp, and the handler of LibraryNet/TCPMessageHandler.h.
use dklibrary.Common.{
  ℕ, ◌+◌, ◌-◌, ◌^◌, ◌≤◌, ◌<◌, ◌≡◌, sym, ◌∙◌, arith, none, some, List, [], ◌++◌, length, returns,
  append-nil, ap, true, false, throws, stream_exception, ◌>>=◌,
}
use dklibrary.StreamBuf.{Memory, max_alloc}
use dklibrary.Stream.{Stream}
use dklibrary.Stream.Valid
use dklibrary.Stream.Codec.{get_scalar}
use dklibrary.Stream.Codec.Laws.{IsCodec}
use dklibrary.Stream.Codec.Scalar.{scalar-IsCodec}
use dklibrary.RecvQueue.{RecvQueue}
use dklibrary.RecvQueue.Valid.{contents}
use dklibrary.RecvQueue.Arrival.{Arrives}
use dklibrary.Options.{Send}
use dklibrary.Message.Types.{MessageType, message_of, FlatBuffers, adapt}
use dklibrary.Message.Types.Adapting.{serialize_fb_lem, deserialize_rejects}
use dklibrary.EventListener.{fbmessage_unpack}
use dklibrary.Encoder.{Coding, encode, decode}
use dklibrary.Encoder.Contract.{IsCoding, Serializes}
use dklibrary.Encoder.RoundTrip.{decode-encode}
use dklibrary.MessageHandler.{
  TypedHandler, handle, get_message_no, FbHandler, handle_fb, get_fb_message_no,
}
use dklibrary.MessageHandler.Handling.{handle_lem, handle_fb_lem}

message_of-Serializes :
    {A : Type 0} (type : MessageType A) (P : A → Type 0) (wire : A → List ℕ)
    → IsCodec type.serializable P wire
    → (reserved : ℕ) (a : A) → P a
    → type.number < 2 ^ 16
    → reserved ≤ max_alloc
    → Serializes (message_of type reserved a) (wire a)
unfolding message_of
message_of-Serializes type P wire codec reserved a p word room = record {
  writes = λ s v fits. codec.put_lem a s p v fits;
  no_fits = word;
  reserved_fits = room;
}

module _ ⦃memory : Memory⦄ where
  -- A message of a type that was encoded at one end reaches the callback of the type's handler at
  -- the other end, as it was: decode returns a stream, >> of a uint16_t takes the handler's number
  -- off it, and handle calls the callback with the session and the message, and leaves nothing to
  -- read. However the bytes, and those of `rest` behind them, are cut into chunks, `rest` stays in
  -- the queue. The << and >> of the type are a codec, the two ends use one coding, the frame is
  -- shorter than 2 ^ 32 bytes, and limitSize lets it pass.
  pub handle-decode-encode :
      {A : Type 0} (c : Coding) (Sealed : List ℕ → List ℕ → Type 0) (h : TypedHandler A)
      (P : A → Type 0) (wire : A → List ℕ) (options : Send) (reserved session : ℕ) (a : A)
      (rest : List ℕ) (sent : Stream) (q : RecvQueue)
      → IsCoding c Sealed
      → IsCodec h.type.serializable P wire
      → P a
      → get_message_no h < 2 ^ 16
      → reserved ≤ max_alloc
      → 6 + c.header_size + length (wire a) ≤ max_alloc
      → encode c (message_of h.type reserved a) options ≡ returns tt sent
      → length (Valid.contents sent) < 2 ^ 32
      → c.limit_size (length (Valid.contents sent) - 4) ≡ none
      → Arrives [] (Valid.contents sent ++ rest) q
      → (s : Stream) × (q' : RecvQueue) × (t : Stream) × (u : Stream) × (decode c q
          ≡ returns (some s) q')
        × (get_scalar 2 s ≡ returns (get_message_no h) t)
        × (handle h session t
            ≡ returns (record { callback = h.callback; session = session; message = a }) u)
        × (Valid.contents u ≡ [])
        × (contents q' ≡ rest)
  unfolding message_of get_message_no
  handle-decode-encode c Sealed h P wire options reserved session a rest sent q coding codec p
        number room fits encoded word allowed arrives =
      let law = message_of-Serializes h.type P wire codec reserved a p number room in
      let (s, q', ran, holds, left, _, valid) =
        decode-encode c Sealed (message_of h.type reserved a) options (wire a) rest sent q coding
          law fits encoded word allowed arrives in
      let (t, ran', valid', holds') =
        (scalar-IsCodec 2).get_lem h.type.number (wire a) s (omega arith) valid holds in
      let (u, ran'', _, holds'') =
        handle_lem h P wire codec session a [] t p valid' (holds' ∙ sym (append-nil (wire a))) in
      (s, q', t, u, ran, ran', ran'', holds'', left)

  adapt-Serializes :
      {A R : Type 0} (fb : FlatBuffers A R) (a : A)
      → fb.number < 2 ^ 16
      → fb.get_size a ≤ max_alloc
      → Serializes (adapt fb a) (fb.pack a)
  unfolding adapt
  adapt-Serializes fb a word room = record {
    writes = λ s v fits. serialize_fb_lem fb a s v fits;
    no_fits = word;
    reserved_fits = room;
  }

  -- A FlatBuffers message that was encoded at one end reaches the callback of its handler at the
  -- other end: decode returns a stream, >> of a uint16_t takes the handler's number off it, and handle
  -- calls the callback with the session and a table that unpacks to the object that was sent, and
  -- leaves nothing to read. This is so where kNo of the table's type, by which the handler is found,
  -- is kNo of the native type, which the sender writes; where the verification accepts what is
  -- packed, and the root of what is packed unpacks to the object; and where the two ends use one
  -- coding, the frame is shorter than 2 ^ 32 bytes, and limitSize lets it pass. From bytes that the
  -- verification refuses, handle throws, with nothing read and no callback called.
  pub handle_fb-decode-encode :
      {A R : Type 0} (c : Coding) (Sealed : List ℕ → List ℕ → Type 0) (h : FbHandler A R)
      (options : Send) (session : ℕ) (a : A) (rest : List ℕ) (sent other : Stream) (q : RecvQueue)
      → IsCoding c Sealed
      → h.type.verify (h.type.pack a) ≡ true
      → h.type.unpack (h.type.get_root (h.type.pack a)) ≡ a
      → h.type.table_number ≡ h.type.number
      → get_fb_message_no h < 2 ^ 16
      → h.type.get_size a ≤ max_alloc
      → 6 + c.header_size + length (h.type.pack a) ≤ max_alloc
      → encode c (adapt h.type a) options ≡ returns tt sent
      → length (Valid.contents sent) < 2 ^ 32
      → c.limit_size (length (Valid.contents sent) - 4) ≡ none
      → Arrives [] (Valid.contents sent ++ rest) q
      → Valid.IsValid other
      → h.type.verify (Valid.contents other) ≡ false
      → ((s : Stream) × (q' : RecvQueue) × (t : Stream) × (u : Stream) × (message : R) × (decode c q
            ≡ returns (some s) q')
          × (get_scalar 2 s ≡ returns (get_fb_message_no h) t)
          × (handle_fb h session t
              ≡ returns (record { callback = h.callback; session = session; message = message }) u)
          × (fbmessage_unpack h.type message ≡ a)
          × (Valid.contents u ≡ [])
          × (contents q' ≡ rest))
        × (handle_fb h session other ≡ throws (stream_exception "Stream exception") other)
  unfolding adapt get_fb_message_no handle_fb
  handle_fb-decode-encode c Sealed h options session a rest sent other q coding accepted unpacks
        same_number number room fits encoded word allowed arrives valid_other refused =
      let fb = h.type in
      let law = adapt-Serializes fb a (omega arith) room in
      let (s, q', ran, holds, left, _, valid) =
        decode-encode c Sealed (adapt fb a) options (fb.pack a) rest sent q coding law fits encoded
          word allowed arrives in
      let (t, ran', valid', holds') =
        (scalar-IsCodec 2).get_lem fb.number (fb.pack a) s (omega arith) valid holds in
      let (u, ran'', _, empty) =
        handle_fb_lem h session t valid' (ap fb.verify holds' ∙ accepted) in
      (
        (
          s,
          q',
          t,
          u,
          fb.get_root (Valid.contents t),
          ran,
          ran' ∙ ap (λ n. returns n t) (sym same_number),
          ran'',
          ap (λ bytes. fb.unpack (fb.get_root bytes)) holds' ∙ unpacks,
          empty,
          left,
        ),
        rw (◌>>=◌, deserialize_rejects fb other valid_other refused),
      )
