-- ===== src/Tests/Connections.antt =====
-- Messages from one end of a connection to the other.
use dklibrary.Common.{
  drop, ◌+◌, sym, ap, ◌∙◌, append-nil, throws, stream_exception, ◌==◌, false, subst, ℕ, ◌<◌, ◌^◌,
  ◌≡◌, refl, arith, List, [], ◌∷◌, ◌++◌, length, some, returns,
}
use dklibrary.Stream.{Stream, create_stream, write, write_blank, verify_output}
use dklibrary.Stream.Valid
use dklibrary.Stream.Codec.{le_bytes, put_scalar, get_scalar, scalar}
use dklibrary.Stream.Codec.Scalar.{scalar-IsCodec}
use dklibrary.RecvQueue.{RecvQueue}
use dklibrary.RecvQueue.Valid.{IsValid, contents}
use dklibrary.RecvQueue.Arrival.{Arrives, Arrives-once}
use dklibrary.Options.{no_options}
use dklibrary.Message.Types.{message_of, FlatBuffers, adapt, serialize_fb}
use dklibrary.EventListener.{fbmessage_unpack}
use dklibrary.MessageHandler.{
  TypedHandler, handle, get_message_no, FbHandler, handle_fb, get_fb_message_no,
}
use dklibrary.MessageHandler.Delivery.{handle-decode-encode, handle_fb-decode-encode}
use dklibrary.Encoder.{encode, decode}
use dklibrary.Encoder.RoundTrip.{decode-encode}
use dklibrary.Encoder.Null.{null_encoder, NullSealed, null_encoder-IsCoding}
use dklibrary.SendQueue.{SendQueue, push_stream, consume}
use dklibrary.SendQueue.Consuming.{IsReady, pending, consume_queue_lem}
use dklibrary.Encoder.Connection.{Sent, plain, wires, plains, IsSent}
use dklibrary.Encoder.Connection.Transmission.{
  Transmits, connected, sends, leaves, reaches, receives, IsSent-stream,
}
use dklibrary.Encoder.Connection.EndToEnd.{Transmits-plains, drain, drain-Transmits}
use dklibrary.Tests.Data.{zeroed, state_of, small, small-IsValid}
use dklibrary.Tests.Frames.{ping, ping-Serializes, sent, sent_ran, sent_bytes, ping_frame}

abbrev sent_ping : Sent
sent_ping = record { message = ping; options = no_options; body = le_bytes 1 1; stream = sent }

sent_short : length (Valid.contents sent) < 2000
sent_short = rw sent_bytes (omega arith)

sent_ping-IsSent : IsSent null_encoder sent_ping
sent_ping-IsSent = record {
  law = ping-Serializes;
  room = omega arith;
  encoded = sent_ran;
  word = omega (arith, sent_short);
  allowed = refl;
}

-- Two messages, of which the first and three bytes of the second arrive at once.
abbrev two_pings : List Sent
two_pings = sent_ping ∷ sent_ping ∷ []

abbrev first_bytes : List ℕ
first_bytes = ping_frame ++ (4 ∷ 0 ∷ 0 ∷ [])

abbrev first_queue : RecvQueue
first_queue = (Arrives-once first_bytes (omega arith)).0

first-Arrives : Arrives [] first_bytes first_queue
first-Arrives = (Arrives-once first_bytes (omega arith)).1

-- The first decode.
first_decoded :
    (s : Stream) × (q' : RecvQueue) × (decode null_encoder first_queue ≡ returns (some s) q')
    × (Valid.contents s ≡ plain sent_ping)
    × (contents q' ≡ 4 ∷ 0 ∷ 0 ∷ [])
    × IsValid q'
    × Valid.IsValid s
first_decoded =
    decode-encode null_encoder NullSealed ping no_options (le_bytes 1 1) (4 ∷ 0 ∷ 0 ∷ []) sent
      first_queue null_encoder-IsCoding ping-Serializes (omega arith) sent_ran
      (omega (arith, sent_short)) refl
      (subst (λ bs. Arrives [] bs first_queue) (ap (λ bs. bs ++ (4 ∷ 0 ∷ 0 ∷ [])) (sym sent_bytes))
        first-Arrives)

abbrev outbox : SendQueue
outbox = sent ∷ sent ∷ []

outbox-IsReady : IsReady outbox
outbox-IsReady =
    let (v, some_left) =
      IsSent-stream null_encoder NullSealed sent_ping null_encoder-IsCoding sent_ping-IsSent in
    (v, some_left, (v, some_left, tt))

sixteen : length (pending outbox) ≡ 16
sixteen = rw sent_bytes refl

-- The socket takes eleven bytes of the sixteen.
taken :
    (p : SendQueue) × (consume 11 outbox ≡ returns tt p)
    × IsReady p
    × (pending p ≡ drop 11 (pending outbox))
taken = consume_queue_lem 11 outbox outbox-IsReady (omega (arith, sixteen))

both_sent : Transmits null_encoder two_pings outbox [] [] []
unfolding push_stream
both_sent =
    sends sent_ping (sends sent_ping connected sent_ping-IsSent refl refl) sent_ping-IsSent refl
      refl

one_received :
    Transmits null_encoder two_pings taken.0 [] first_decoded.1
      (Valid.contents first_decoded.0 ∷ [])
one_received =
    receives (some first_decoded.0)
      (reaches first_bytes
        (leaves {way' = first_bytes} 11 both_sent (omega (arith, sixteen)) taken.1
          (rw sent_bytes refl))
        refl first-Arrives)
      (omega (arith, (Arrives-once first_bytes (omega arith)).2)) first_decoded.2 refl

five : length (pending taken.0) ≡ 5
five = ap length taken.3 ∙ rw sent_bytes refl

Transmits-plains_example :
    (done : List Sent) × (todo : List Sent) × (p' : SendQueue) × (two_pings ≡ done ++ todo)
    × (Valid.contents first_decoded.0 ∷ [] ≡ plains done)
    × IsValid first_decoded.1
    × (contents first_decoded.1 ++ ([] ++ pending taken.0) ≡ wires todo)
    × (consume 5 taken.0 ≡ returns tt p')
    × (pending p' ≡ drop 5 (pending taken.0))
Transmits-plains_example =
    Transmits-plains null_encoder NullSealed null_encoder-IsCoding two_pings taken.0 []
      first_decoded.1 (Valid.contents first_decoded.0 ∷ []) 5 one_received (omega (arith, five))

-- One message, which has arrived.
abbrev whole_queue : RecvQueue
whole_queue = (Arrives-once ping_frame (omega arith)).0

one_wire : pending (sent ∷ []) ≡ ping_frame
one_wire = rw sent_bytes refl

all_taken :
    (p : SendQueue) × (consume 8 (sent ∷ []) ≡ returns tt p)
    × IsReady p
    × (pending p ≡ drop 8 (pending (sent ∷ [])))
all_taken =
    consume_queue_lem 8 (sent ∷ []) (outbox-IsReady.0, outbox-IsReady.1, tt)
      (omega (arith, ap length one_wire))

all_arrived : Transmits null_encoder (sent_ping ∷ []) all_taken.0 [] whole_queue []
unfolding push_stream
all_arrived =
    reaches ping_frame
      (leaves {way' = ping_frame} 8 (sends sent_ping connected sent_ping-IsSent refl refl)
        (omega (arith, ap length one_wire)) all_taken.1 (rw sent_bytes refl))
      refl (Arrives-once ping_frame (omega arith)).1

drain-Transmits_example :
    (missing : List (List ℕ)) × (q' : RecvQueue) × (drain null_encoder 2 whole_queue
      ≡ returns missing q')
    × ([] ++ missing ≡ plains (sent_ping ∷ []))
    × (contents q' ≡ [])
drain-Transmits_example =
    drain-Transmits null_encoder NullSealed null_encoder-IsCoding (sent_ping ∷ []) all_taken.0
      whole_queue [] 2 all_arrived (all_taken.3 ∙ ap (drop 8) one_wire) (omega arith)

-- A message with a uint32_t, and its handler.
abbrev counter : TypedHandler ℕ
counter = record { type = record { number = 5; serializable = scalar 4 }; callback = 1 }

unfoldable sent_counter : Stream
sent_counter = state_of (encode null_encoder (message_of counter.type 4 513) no_options)

-- Size 7, a header byte, number 5, content 513.
abbrev counter_frame : List ℕ
counter_frame = 7 ∷ 0 ∷ 0 ∷ 0 ∷ 0 ∷ 5 ∷ 0 ∷ 1 ∷ 2 ∷ 0 ∷ 0 ∷ []

counter_bytes : Valid.contents sent_counter ≡ counter_frame
unfolding sent_counter encode message_of put_scalar write write_blank create_stream
counter_bytes = refl

counter_ran :
    encode null_encoder (message_of counter.type 4 513) no_options ≡ returns tt sent_counter
unfolding sent_counter encode message_of put_scalar write write_blank create_stream
counter_ran = refl

counter_short : length (Valid.contents sent_counter) < 2000
counter_short = rw counter_bytes (omega arith)

abbrev counter_queue : RecvQueue
counter_queue = (Arrives-once (counter_frame ++ (9 ∷ [])) (omega arith)).0

handle-decode-encode_example :
    (s : Stream) × (q' : RecvQueue) × (t : Stream) × (u : Stream) × (decode null_encoder
        counter_queue
      ≡ returns (some s) q')
    × (get_scalar 2 s ≡ returns 5 t)
    × (handle counter 77 t ≡ returns (record { callback = 1; session = 77; message = 513 }) u)
    × (Valid.contents u ≡ [])
    × (contents q' ≡ 9 ∷ [])
unfolding get_message_no
handle-decode-encode_example =
    handle-decode-encode null_encoder NullSealed counter (λ v. v < 256 ^ 4) _ no_options 4 77 513
      (9 ∷ []) sent_counter counter_queue null_encoder-IsCoding (scalar-IsCodec 4) (omega arith)
      (omega arith) (omega arith) (omega arith) counter_ran (omega (arith, counter_short)) refl
      (subst (λ bs. Arrives [] bs counter_queue) (ap (λ bs. bs ++ (9 ∷ [])) (sym counter_bytes))
        (Arrives-once (counter_frame ++ (9 ∷ [])) (omega arith)).1)

-- A table of one byte, whose buffer is the byte and its double.
abbrev doubled : FlatBuffers ℕ (List ℕ)
doubled = record {
  number = 9;
  table_number = 9;
  get_size = λ n. 2;
  pack = λ n. n ∷ (n + n) ∷ [];
  verify = λ bytes. elim bytes [ x ∷ y ∷ [] ↦ (x + x) == y | _ ↦ false ];
  get_root = λ bytes. bytes;
  unpack = λ bytes. elim bytes [ [] ↦ 0 | x ∷ rest ↦ x ];
}

abbrev table_handler : FbHandler ℕ (List ℕ)
table_handler = record { type = doubled; callback = 2 }

unfoldable sent_table : Stream
sent_table = state_of (encode null_encoder (adapt doubled 4) no_options)

-- Size 5, a header byte, number 9, the buffer.
abbrev table_frame : List ℕ
table_frame = 5 ∷ 0 ∷ 0 ∷ 0 ∷ 0 ∷ 9 ∷ 0 ∷ 4 ∷ 8 ∷ []

table_bytes : Valid.contents sent_table ≡ table_frame
unfolding sent_table encode adapt serialize_fb verify_output put_scalar write write_blank
    create_stream
table_bytes = refl

table_ran : encode null_encoder (adapt doubled 4) no_options ≡ returns tt sent_table
unfolding sent_table encode adapt serialize_fb verify_output put_scalar write write_blank
    create_stream
table_ran = refl

table_short : length (Valid.contents sent_table) < 2000
table_short = rw table_bytes (omega arith)

abbrev table_queue : RecvQueue
table_queue = (Arrives-once table_frame (omega arith)).0

handle_fb-decode-encode_example :
    ((s : Stream) × (q' : RecvQueue) × (t : Stream) × (u : Stream) × (message : List ℕ) × (decode
          null_encoder table_queue
        ≡ returns (some s) q')
      × (get_scalar 2 s ≡ returns 9 t)
      × (handle_fb table_handler 77 t
          ≡ returns (record { callback = 2; session = 77; message = message }) u)
      × (fbmessage_unpack doubled message ≡ 4)
      × (Valid.contents u ≡ [])
      × (contents q' ≡ []))
    × (handle_fb table_handler 77 small ≡ throws (stream_exception "Stream exception") small)
unfolding get_fb_message_no
handle_fb-decode-encode_example =
    handle_fb-decode-encode null_encoder NullSealed table_handler no_options 77 4 [] sent_table
      small table_queue null_encoder-IsCoding refl refl refl (omega arith) (omega arith)
      (omega arith) table_ran (omega (arith, table_short)) refl
      (subst (λ bs. Arrives [] bs table_queue)
        (sym (ap (λ bs. bs ++ []) table_bytes ∙ append-nil table_frame))
        (Arrives-once table_frame (omega arith)).1)
      small-IsValid refl
