-- ===== src/Message/Types.antt =====
-- Types of messages: TCPMessageT of LibraryNet/TCPMessage.h with the serialize and deserialize of
-- LibraryBase/Serializable.h, and FBMessageAdaptorT over FlatBuffers. FlatBuffers is a parameter:
-- the bytes that a FlatBufferBuilder has after Pack and Finish, Verifier::VerifyBuffer, and GetRoot.
pub mod Adapting
use dklibrary.Common.{
  ℕ, ◌-◌, if◌then◌else◌, Bool, not, List, length, take, drop, M, ret, raise, reads,
  stream_exception, ◌>>=◌, ◌>>◌,
}
use dklibrary.StreamBuf.{Memory}
use dklibrary.Stream.{Stream, readable_size, write, verify_output, consume}
use dklibrary.Stream.Codec.{Codec}
use dklibrary.Message.{Message}

-- serialize and deserialize
abbrev pub Serializable : Type 0 → Type 0
Serializable A = Codec A

-- TCPMessageT<no>, of messages with the members `A`, as a Serializable.
pub record MessageType (A : Type 0) : Type 0 where
  pub number : ℕ
  pub serializable : Serializable A

-- operator<< and operator>> of a Serializable
unfoldable pub put_serializable : {A : Type 0} → Serializable A → A → M Stream (Unit {0})
put_serializable c message = c.put message

unfoldable pub get_serializable : {A : Type 0} → Serializable A → M Stream A
get_serializable c = c.get

-- A message of a type, as the encoder takes it.
unfoldable pub message_of : {A : Type 0} → MessageType A → ℕ → A → Message
message_of type reserved a = record {
  no = type.number;
  reserved = reserved;
  serialize = type.serializable.put a;
}

-- FlatBuffers at a table: a native object `A`, and a root `R` that points into a buffer and unpacks
-- to an object. `number` is FBMessageT::kNo, which the sender writes, and `table_number`
-- FBMessageT::TableType::kNo, which the handler has.
pub record FlatBuffers (A R : Type 0) : Type 0 where
  pub number : ℕ
  pub table_number : ℕ
  pub get_size : A → ℕ
  pub pack : A → List ℕ
  pub verify : List ℕ → Bool
  pub get_root : List ℕ → R
  pub unpack : R → A

module _ {A R : Type 0} (fb : FlatBuffers A R) where
  -- deserialize, on all that can be read
  unfoldable pub deserialize_fb : M Stream R
  deserialize_fb = do
    available ← reads readable_size
    buffer ← reads (λ s. take available (drop s.read s.buf.bytes))
    if fb.verify buffer
        then (do consume available; ret (fb.get_root buffer))
        else raise (stream_exception "Stream exception")

  module _ ⦃memory : Memory⦄ where
    -- serialize
    unfoldable pub serialize_fb : A → M Stream (Unit {0})
    serialize_fb a = do verify_output (length (fb.pack a)); write (fb.pack a)

    -- FBMessageAdaptorT(const FBMessageT&)
    unfoldable pub adapt : A → Message
    unfolding serialize_fb
    adapt a = record { no = fb.number; reserved = fb.get_size a; serialize = serialize_fb a }
