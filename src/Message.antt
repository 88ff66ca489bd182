-- ===== src/Message.antt =====
-- LibraryNet/TCPMessage.h, and the heartbeat messages of LibraryNet/Encoder.h.
pub mod Types
pub mod Heartbeats
use dklibrary.Common.{ℕ, ◌==◌, not, if◌then◌else◌, Bool, M, ret, ◌>>=◌}
use dklibrary.StreamBuf.{Memory}
use dklibrary.Stream.{Stream}
use dklibrary.Stream.Codec.{get_scalar, put_scalar}

-- TCPMessage: its number, the size that was reserved, and its virtual serialize.
pub record Message : Type 0 where
  pub no : ℕ
  pub reserved : ℕ
  pub serialize : M Stream (Unit {0})

abbrev pub reserve : ℕ → Message → Message
reserve size m = record m { reserved = size }

-- EncoderMessageNo
abbrev pub heartbeat_ping_no : ℕ
heartbeat_ping_no = 1

abbrev pub heartbeat_pong_no : ℕ
heartbeat_pong_no = 2

module _ ⦃memory : Memory⦄ where
  -- HEARTBEAT_PING; a bool is one byte.
  unfoldable pub serialize_ping : Bool → M Stream (Unit {0})
  serialize_ping persistent = put_scalar 1 (if persistent then 1 else 0)

  abbrev pub heartbeat_ping : Bool → Message
  heartbeat_ping persistent = record {
    no = heartbeat_ping_no;
    reserved = 0;
    serialize = serialize_ping persistent;
  }

  -- HEARTBEAT_PONG has no content.
  abbrev pub heartbeat_pong : Message
  heartbeat_pong = record { no = heartbeat_pong_no; reserved = 0; serialize = ret tt }

unfoldable pub deserialize_ping : M Stream Bool
deserialize_ping = do value ← get_scalar 1; ret (not (value == 0))
