-- ===== src/Message/Heartbeats.antt =====
-- HEARTBEAT_PING and HEARTBEAT_PONG of LibraryNet/Encoder.h as types of messages.
use dklibrary.Common.{
  ℕ, ◌<◌, ◌^◌, ◌≡◌, refl, arith, Bool, true, false, if◌then◌else◌, ◌==◌, not, ◌>>=◌,
}
use dklibrary.StreamBuf.{Memory}
use dklibrary.Stream.Codec.{le_bytes}
use dklibrary.Stream.Codec.Laws.{IsCodec}
use dklibrary.Stream.Codec.Scalar.{scalar-IsCodec}
use dklibrary.Message.{heartbeat_ping_no, serialize_ping, deserialize_ping}
use dklibrary.Message.Types.{MessageType}

-- The byte of the flag.
abbrev pub flag_byte : Bool → ℕ
flag_byte persistent = if persistent then 1 else 0

module _ ⦃memory : Memory⦄ where
  abbrev pub ping_type : MessageType Bool
  ping_type = record {
    number = heartbeat_ping_no;
    serializable = record { put = serialize_ping; get = deserialize_ping };
  }

  fits : (persistent : Bool) → flag_byte persistent < 256 ^ 1
  fits true = omega arith
  fits false = omega arith

  read_back : (persistent : Bool) → not (flag_byte persistent == 0) ≡ persistent
  read_back true = refl
  read_back false = refl

  -- A ping comes back from the stream with its flag.
  pub ping-IsCodec :
      IsCodec ping_type.serializable
        (λ persistent. Unit)
        (λ persistent. le_bytes 1 (flag_byte persistent))
  unfolding serialize_ping deserialize_ping
  ping-IsCodec = record {
    put_lem = λ persistent s u v room.
        (scalar-IsCodec 1).put_lem (flag_byte persistent) s (fits persistent) v room;
    get_lem = λ persistent rest s u v e.
        let (t, ran, v', left) =
          (scalar-IsCodec 1).get_lem (flag_byte persistent) rest s (fits persistent) v e in
        (t, rw (ran, ◌>>=◌, read_back persistent) refl, v', left);
  }
