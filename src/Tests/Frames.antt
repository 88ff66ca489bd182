-- ===== src/Tests/Frames.antt =====
-- LibraryNet/Options.h, LibraryNet/Encoder.cpp and NullEncoder.
use dklibrary.Common.{
  false, Bool, ℕ, ◌+◌, ◌≤◌, ◌<◌, ◌≡◌, refl, arith, inl, inr, raise, true, List, [], ◌∷◌, length,
  none, some, returns, tcp_exception,
}
use dklibrary.Stream.{Stream, create_stream, write, write_blank}
use dklibrary.Stream.Valid
use dklibrary.Stream.Codec.{le_bytes, put_scalar}
use dklibrary.Message.Heartbeats.{ping-IsCodec}
use dklibrary.RecvQueue.{RecvQueue}
use dklibrary.RecvQueue.Valid.{IsValid, contents, space}
use dklibrary.Options.{Flag, no_options, is_set, save_to, load_from}
use dklibrary.Options.Flags.{set_all, is_set-load_from}
use dklibrary.Message.{Message, heartbeat_ping, serialize_ping}
use dklibrary.Encoder.{encode, decode}
use dklibrary.Encoder.Contract.{Serializes}
use dklibrary.Encoder.Framing.{Frames, payload_of, encode-Frames}
use dklibrary.Encoder.Validating.{size_field, decode_waits}
use dklibrary.Encoder.Decoding.{decode_delivers}
use dklibrary.Encoder.Parsing.{Parses, parse, decode-Parses}
use dklibrary.Encoder.Null.{null_encoder, NullSealed, null_encoder-IsCoding}
use dklibrary.Tests.Data.{zeroed, state_of}

-- Compressed and multi are set, and compressed is taken back.
abbrev settings : List (Flag × Bool)
settings = (Flag.compressed, true) ∷ (Flag.multi, true) ∷ (Flag.compressed, false) ∷ []

is_set-load_from_example :
    (is_set Flag.multi (load_from (save_to (set_all settings no_options)) (record { options = 2 }))
      ≡ true)
    × (save_to (set_all settings no_options) < 256)
is_set-load_from_example =
    is_set-load_from settings no_options (record { options = 2 }) Flag.multi (omega arith)

abbrev pub ping : Message
ping = heartbeat_ping true

pub ping-Serializes : Serializes ping (le_bytes 1 1)
unfolding serialize_ping
ping-Serializes = record {
  writes = λ s v room. ping-IsCodec.put_lem true s tt v room;
  no_fits = omega arith;
  reserved_fits = omega arith;
}

encode-Frames_example :
    (header : List ℕ) × (length header ≡ 1)
    × Frames
        (encode null_encoder ping no_options)
        (payload_of (λ content. inr content) header 1 (inr (le_bytes 1 1)))
encode-Frames_example =
    encode-Frames null_encoder ping no_options (λ content. inr content) (inr (le_bytes 1 1))
      (omega arith) (omega arith) ping-Serializes (omega arith) (λ s body framed. framed)

-- A message that cannot be serialized.
abbrev broken : Message
broken = record { no = 9; reserved = 0; serialize = raise (tcp_exception "no content") }

broken-Frames :
    (header : List ℕ) × (length header ≡ 1)
    × Frames (encode null_encoder broken no_options) (inl (tcp_exception "no content"))
broken-Frames =
    encode-Frames null_encoder broken no_options (λ content. inr content)
      (inl (tcp_exception "no content")) (omega arith) (omega arith) (λ s v. (s, refl))
      (omega arith) (λ s body framed. framed)

unfoldable pub sent : Stream
sent = state_of (encode null_encoder ping no_options)

-- Size 4, a header byte, number 1, content 1.
abbrev pub ping_frame : List ℕ
ping_frame = 4 ∷ 0 ∷ 0 ∷ 0 ∷ 0 ∷ 1 ∷ 0 ∷ 1 ∷ []

pub sent_bytes : Valid.contents sent ≡ ping_frame
unfolding sent encode serialize_ping put_scalar write write_blank create_stream
sent_bytes = refl

pub sent_ran : encode null_encoder ping no_options ≡ returns tt sent
unfolding sent encode serialize_ping put_scalar write write_blank create_stream
sent_ran = refl

-- A frame and the first byte of the next, in one stream.
abbrev framed : RecvQueue
framed =
    record {
      read = 0;
      written = 9;
      buf = record { size = 10; bytes = 4 ∷ 0 ∷ 0 ∷ 0 ∷ 0 ∷ 1 ∷ 0 ∷ 1 ∷ 9 ∷ 0 ∷ [] };
    }
    ∷ []

framed-IsValid : IsValid framed
framed-IsValid = record {
  in_order = (omega arith, omega arith, inr refl, tt);
  bounded = omega arith;
}

decode_delivers_example :
    (s : Stream) × (q' : RecvQueue) × (decode null_encoder framed ≡ returns (some s) q')
    × Valid.IsValid s
    × (Valid.contents s ≡ 1 ∷ 0 ∷ 1 ∷ [])
    × IsValid q'
    × (contents q' ≡ 9 ∷ [])
decode_delivers_example =
    decode_delivers null_encoder NullSealed null_encoder-IsCoding (1 ∷ 0 ∷ 1 ∷ [])
      (0 ∷ 1 ∷ 0 ∷ 1 ∷ []) (9 ∷ []) (0 ∷ [], refl, refl) framed framed-IsValid refl (omega arith)
      (omega arith) refl

decode-Parses_example :
    Parses
      (decode null_encoder framed)
      (parse null_encoder (λ payload. inr payload) (contents framed))
decode-Parses_example =
    decode-Parses null_encoder (λ payload. inr payload) (λ s payload valid holds. (valid, holds))
      (omega arith) framed framed-IsValid (omega arith) (omega arith)

-- A frame, and one whose content is missing.
parse_both :
    (parse null_encoder (λ payload. inr payload) ping_frame ≡ returns (some (1 ∷ 0 ∷ 1 ∷ [])) [])
    × (parse null_encoder (λ payload. inr payload) (9 ∷ 0 ∷ 0 ∷ 0 ∷ 0 ∷ 1 ∷ 0 ∷ [])
        ≡ returns none (9 ∷ 0 ∷ 0 ∷ 0 ∷ 0 ∷ 1 ∷ 0 ∷ []))
unfolding parse
parse_both = (refl, refl)

-- The size field says 40, and three of those bytes are there.
abbrev incomplete : RecvQueue
incomplete =
    record {
      read = 0;
      written = 7;
      buf = record { size = 10; bytes = 40 ∷ 0 ∷ 0 ∷ 0 ∷ 0 ∷ 1 ∷ 0 ∷ 0 ∷ 0 ∷ 0 ∷ [] };
    }
    ∷ []

incomplete-IsValid : IsValid incomplete
incomplete-IsValid = record {
  in_order = (omega arith, omega arith, inr refl, tt);
  bounded = omega arith;
}

decode_waits_example :
    (q' : RecvQueue) × (decode null_encoder incomplete ≡ returns none q')
    × IsValid q'
    × (contents q' ≡ contents incomplete)
    × (size_field incomplete + 4 ≤ length (contents q') + length (space q'))
decode_waits_example =
    decode_waits null_encoder incomplete incomplete-IsValid (omega arith) (omega arith) refl
      (omega arith) (omega arith) (omega arith) (omega arith)
