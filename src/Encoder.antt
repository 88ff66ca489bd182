-- ===== src/Encoder.antt =====
-- LibraryNet/Encoder.h and .cpp: the frame of a message on the wire, and its way back. A frame is
-- its size as a uint32_t, a header whose size the encoder chooses, the message's number and its
-- content; doEncode may change all behind the size, and doDecode changes it back.
pub mod Contract
pub mod Encoding
pub mod Framing
pub mod Validating
pub mod Fetching
pub mod Opening
pub mod Parsing
pub mod Splitting
pub mod Hearing
pub mod Decoding
pub mod RoundTrip
pub mod Front
pub mod Connection
pub mod Null
pub mod Lifecycle
use dklibrary.Common.{
  ℕ, ◌+◌, ltb, if◌then◌else◌, Bool, true, false, Option, none, some, M, Outcome, returns, throws,
  Fault, tcp_exception, ret, raise, reads, modify, ◌>>=◌, ◌>>◌,
}
use dklibrary.Common.Word.{add64, sub64}
use dklibrary.StreamBuf.{Memory, overwrite}
use dklibrary.Stream
use dklibrary.Stream.{Stream, write_blank, store, consume, create_stream}
use dklibrary.Stream.Codec.{le_bytes, of_le_bytes, to_u32, put_scalar}
use dklibrary.RecvQueue
use dklibrary.RecvQueue.{RecvQueue, readable_size, writable_size}
use dklibrary.Options.{Send}
use dklibrary.Message.{Message}

-- The virtual methods of an encoder. `limit_size` gives the exception that limitSize throws.
pub record Coding : Type 0 where
  pub header_size : ℕ
  pub do_encode : Send → M Stream (Unit {0})
  pub do_decode : M Stream (Unit {0})
  pub limit_size : ℕ → Option Fault

-- EncoderT<PacketHeaderT>, of sizeof(PacketHeaderT), with the methods that it leaves open
abbrev pub encoder_t :
    ℕ → (Send → M Stream (Unit {0})) → M Stream (Unit {0}) → (ℕ → Option Fault) → Coding
encoder_t header_size do_encode do_decode limit_size = record {
  header_size = header_size;
  do_encode = do_encode;
  do_decode = do_decode;
  limit_size = limit_size;
}

-- setSize writes over the first four bytes of the block.
unfoldable pub set_size : Stream → Stream
set_size s = record s {
  buf = record s.buf {
    bytes = overwrite s.buf.bytes 0 (le_bytes 4 (to_u32 (sub64 (Stream.size s) 4)));
  };
}

-- The least size field, and the least number of bytes of a frame.
abbrev pub minimum_size : Coding → ℕ
minimum_size c = add64 2 c.header_size

abbrev pub minimum_packet_size : Coding → ℕ
minimum_packet_size c = add64 4 (minimum_size c)

abbrev pub limit : Option Fault → M RecvQueue (Unit {0})
limit none q = returns tt q
limit (some e) q = throws e q

-- validateSize, from where the size has been read: none stands for false.
pub check_size : Coding → ℕ → M RecvQueue (Option ℕ)
check_size c size = do
  limit (c.limit_size size)
  if ltb size (minimum_size c)
      then raise (tcp_exception "packet size too small!!!")
      else ret (some size)

unfoldable pub validate_size : Coding → M RecvQueue (Option ℕ)
unfolding check_size
validate_size c q =
    if ltb (readable_size q) (minimum_packet_size c)
    then returns none q
    else (do bytes ← RecvQueue.peek 4; check_size c (of_le_bytes bytes)) q

-- The stream that a call of the encoder on it leaves, with the queue beside it.
abbrev pub on_stream : Outcome Stream (Unit {0}) → M RecvQueue Stream
on_stream (returns _ s) q = returns s q
on_stream (throws e s) q = throws e q

unfoldable pub open_stream : Coding → Stream → Outcome Stream (Unit {0})
open_stream c = do c.do_decode; consume c.header_size

module _ ⦃memory : Memory⦄ where
  unfoldable pub encode : Coding → Message → Send → Outcome Stream (Unit {0})
  unfolding set_size
  encode c message options =
      (do
        write_blank 4
        write_blank c.header_size
        put_scalar 2 message.no
        message.serialize
        c.do_encode options
        modify set_size)
        (create_stream message.reserved)

  unfoldable pub enough : ℕ → M RecvQueue Bool
  enough size q =
      if ltb (readable_size q) (add64 size 4)
      then (do
        if ltb (add64 (readable_size q) (writable_size q)) (add64 size 4)
            then RecvQueue.prepare (sub64 (add64 size 4) (readable_size q))
            else ret tt
        ret false)
          q
      else returns true q

  -- streamRecv of decode: a stream with a copy of the bytes.
  unfoldable pub copy_out : ℕ → M RecvQueue Stream
  copy_out size = do
    bytes ← RecvQueue.peek size
    s ← on_stream (Stream.commit size (store bytes (create_stream size)))
    RecvQueue.pop size
    ret s

  -- decode, from where the frame is known to be complete.
  pub extract : Coding → ℕ → M RecvQueue Stream
  unfolding copy_out open_stream
  extract c size = do
    RecvQueue.pop 4
    whole ← RecvQueue.detachable size
    s ← if whole then RecvQueue.detach else copy_out size
    on_stream (open_stream c s)

  pub decode_sized : Coding → Option ℕ → M RecvQueue (Option Stream)
  unfolding extract enough
  decode_sized c none = ret none
  decode_sized c (some size) = do
    complete ← enough size
    if complete then (extract c size >>= λ s. ret (some s)) else ret none

  unfoldable pub decode : Coding → M RecvQueue (Option Stream)
  unfolding validate_size decode_sized
  decode c = do size ← validate_size c; decode_sized c size
