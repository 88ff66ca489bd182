-- ===== src/Encoder/Connection/Transmission.antt =====
-- A connection with its two queues: encode of LibraryNet/Encoder.cpp, push and consume of
-- LibraryNet/SendQueue.cpp at one end, a RecvQueue and decode at the other.
use dklibrary.Common.{
  ℕ, ◌+◌, ◌^◌, ◌≤◌, ◌<◌, ◌≡◌, refl, sym, ap, ◌∙◌, arith, Option, List, [], ◌∷◌, ◌++◌, length, take,
  drop, returns, subst, append_assoc, append-nil, take-append-drop,
}
use dklibrary.StreamBuf.{Memory, max_alloc}
use dklibrary.Stream.{Stream}
use dklibrary.Stream.Valid
use dklibrary.RecvQueue.{RecvQueue}
use dklibrary.RecvQueue.Valid.{total_alloc}
use dklibrary.RecvQueue.Arrival.{Arrives}
use dklibrary.SendQueue.{SendQueue, push_stream, consume}
use dklibrary.SendQueue.Consuming.{pending, IsReady, push_stream_lem, consume_queue_lem}
use dklibrary.Encoder.{Coding, decode}
use dklibrary.Encoder.Contract.{IsCoding}
use dklibrary.Encoder.Encoding.{encode_lem}
use dklibrary.Encoder.Connection.{
  Sent, wires, handed_over, IsSent, AllSent, Receives, opened, arrives, decodes,
}

module _ ⦃memory : Memory⦄ where
  -- The history of a connection: the messages sent so far, the queue of the sender, the bytes on the
  -- way, the queue of the receiver, and the contents of the streams that decode has returned. The
  -- socket takes the first bytes that are pending, and consume is told how many.
  pub data Transmits (c : Coding)
      : List Sent → SendQueue → List ℕ → RecvQueue → List (List ℕ) → Type 0 where
    connected : Transmits c [] [] [] [] []
    sends :
        {ms all : List Sent} {p p' : SendQueue} {way : List ℕ} {q : RecvQueue} {got : List (List ℕ)}
        (m : Sent)
        → Transmits c ms p way q got
        → IsSent c m
        → push_stream m.stream p ≡ returns tt p'
        → all ≡ ms ++ (m ∷ [])
        → Transmits c all p' way q got
    leaves :
        {ms : List Sent} {p p' : SendQueue} {way way' : List ℕ} {q : RecvQueue}
        {got : List (List ℕ)} (n : ℕ)
        → Transmits c ms p way q got
        → n ≤ length (pending p)
        → consume n p ≡ returns tt p'
        → way' ≡ way ++ take n (pending p)
        → Transmits c ms p' way' q got
    reaches :
        {ms : List Sent} {p : SendQueue} {way way' : List ℕ} {q q' : RecvQueue}
        {got : List (List ℕ)} (bytes : List ℕ)
        → Transmits c ms p way q got
        → way ≡ bytes ++ way'
        → Arrives q bytes q'
        → Transmits c ms p way' q' got
    receives :
        {ms : List Sent} {p : SendQueue} {way : List ℕ} {q q' : RecvQueue} {got all : List (List ℕ)}
        (found : Option Stream)
        → Transmits c ms p way q got
        → total_alloc q + max_alloc < 2 ^ 63
        → decode c q ≡ returns found q'
        → all ≡ got ++ handed_over found
        → Transmits c ms p way q' all

  -- The bytes that have arrived, and those that are still to come.
  pub record Underway (c : Coding) (ms : List Sent) (p : SendQueue) (way : List ℕ) (q : RecvQueue)
      (got : List (List ℕ)) : Type 0 where
    pub ready : IsReady p
    pub all_sent : AllSent c ms
    pub wire : List ℕ
    pub received : Receives c wire q got
    pub to_come : wire ++ (way ++ pending p) ≡ wires ms

  pub IsSent-stream :
      (c : Coding) (Sealed : List ℕ → List ℕ → Type 0) (m : Sent)
      → IsCoding c Sealed
      → IsSent c m
      → Valid.IsValid m.stream × (0 < length (Valid.contents m.stream))
  IsSent-stream c Sealed m coding sent =
      let (t, payload, ran, valid, sealed, holds) =
        encode_lem c Sealed m.message m.options m.body coding sent.law sent.room in
      let encoded = sent.encoded in
      let same : t ≡ m.stream = cc in
      (
        subst Valid.IsValid same valid,
        subst (λ s. 0 < length (Valid.contents s)) same (omega (arith, ap length holds)),
      )

  wires-append :
      (ms : List Sent) (m : Sent) → wires (ms ++ (m ∷ [])) ≡ wires ms ++ Valid.contents m.stream
  wires-append [] m = append-nil (Valid.contents m.stream)
  wires-append (k ∷ ms) m =
      ap (λ bs. Valid.contents k.stream ++ bs) (wires-append ms m)
      ∙ sym (append_assoc (Valid.contents k.stream) (wires ms) (Valid.contents m.stream))

  append-AllSent :
      (c : Coding) (ms : List Sent) (m : Sent)
      → AllSent c ms
      → IsSent c m
      → AllSent c (ms ++ (m ∷ []))
  append-AllSent c [] m h sent = (sent, tt)
  append-AllSent c (k ∷ ms) m h sent = (h.0, append-AllSent c ms m h.1 sent)

  module _ (c : Coding) (Sealed : List ℕ → List ℕ → Type 0) (coding : IsCoding c Sealed) where
    send_step :
        (ms : List Sent) (p p' : SendQueue) (way : List ℕ) (q : RecvQueue) (got : List (List ℕ))
        (m : Sent)
        → Underway c ms p way q got
        → IsSent c m
        → push_stream m.stream p ≡ returns tt p'
        → Underway c (ms ++ (m ∷ [])) p' way q got
    send_step ms p p' way q got m u sent ran =
        let (valid, some_left) = IsSent-stream c Sealed m coding sent in
        let (p'', ran', ready, holds) = push_stream_lem p m.stream u.ready valid some_left in
        let same : p'' ≡ p' = cc in
        record {
          ready = subst IsReady same ready;
          all_sent = append-AllSent c ms m u.all_sent sent;
          wire = u.wire;
          received = u.received;
          to_come =
              ap (λ x. u.wire ++ (way ++ pending x)) (sym same)
              ∙ ap (λ bs. u.wire ++ (way ++ bs)) holds
              ∙ ap (λ bs. u.wire ++ bs)
                  (sym (append_assoc way (pending p) (Valid.contents m.stream)))
              ∙ sym (append_assoc u.wire (way ++ pending p) (Valid.contents m.stream))
              ∙ ap (λ bs. bs ++ Valid.contents m.stream) u.to_come
              ∙ sym (wires-append ms m);
        }

    leave_step :
        (ms : List Sent) (p p' : SendQueue) (way : List ℕ) (q : RecvQueue) (got : List (List ℕ))
        (n : ℕ)
        → Underway c ms p way q got
        → n ≤ length (pending p)
        → consume n p ≡ returns tt p'
        → Underway c ms p' (way ++ take n (pending p)) q got
    leave_step ms p p' way q got n u fits ran =
        let (p'', ran', ready, holds) = consume_queue_lem n p u.ready fits in
        let same : p'' ≡ p' = cc in
        record {
          ready = subst IsReady same ready;
          all_sent = u.all_sent;
          wire = u.wire;
          received = u.received;
          to_come =
              ap (λ x. u.wire ++ ((way ++ take n (pending p)) ++ pending x)) (sym same)
              ∙ ap (λ bs. u.wire ++ ((way ++ take n (pending p)) ++ bs)) holds
              ∙ ap (λ bs. u.wire ++ bs)
                  (append_assoc way (take n (pending p)) (drop n (pending p))
                    ∙ ap (λ bs. way ++ bs) (take-append-drop n (pending p)))
              ∙ u.to_come;
        }

    reach_step :
        (ms : List Sent) (p : SendQueue) (way way' : List ℕ) (q q' : RecvQueue)
        (got : List (List ℕ)) (bytes : List ℕ)
        → Underway c ms p way q got
        → way ≡ bytes ++ way'
        → Arrives q bytes q'
        → Underway c ms p way' q' got
    reach_step ms p way way' q q' got bytes u cut arrived = record {
      ready = u.ready;
      all_sent = u.all_sent;
      wire = u.wire ++ bytes;
      received = arrives u.received arrived refl;
      to_come =
          append_assoc u.wire bytes (way' ++ pending p)
          ∙ ap (λ bs. u.wire ++ bs) (sym (append_assoc bytes way' (pending p)))
          ∙ ap (λ bs. u.wire ++ (bs ++ pending p)) (sym cut)
          ∙ u.to_come;
    }

    pub Transmits-Underway :
        {ms : List Sent} {p : SendQueue} {way : List ℕ} {q : RecvQueue} {got : List (List ℕ)}
        → Transmits c ms p way q got
        → Underway c ms p way q got
    Transmits-Underway connected = record {
      ready = tt;
      all_sent = tt;
      wire = [];
      received = opened;
      to_come = refl;
    }
    Transmits-Underway
          (sends {ms = ms} {p = p} {p' = p'} {way = way} {q = q} {got = got} m before sent ran
            same) =
        subst (λ l. Underway c l p' way q got) (sym same)
          (send_step ms p p' way q got m (Transmits-Underway before) sent ran)
    Transmits-Underway
          (leaves {ms = ms} {p = p} {p' = p'} {way = way} {q = q} {got = got} n before fits ran
            same) =
        subst (λ w. Underway c ms p' w q got) (sym same)
          (leave_step ms p p' way q got n (Transmits-Underway before) fits ran)
    Transmits-Underway
          (reaches {ms = ms} {p = p} {way = way} {way' = way'} {q = q} {q' = q'} {got = got} bytes
            before cut arrived) =
        reach_step ms p way way' q q' got bytes (Transmits-Underway before) cut arrived
    Transmits-Underway (receives found before bound ran same) =
        let u = Transmits-Underway before in
        record {
          ready = u.ready;
          all_sent = u.all_sent;
          wire = u.wire;
          received = decodes found u.received bound ran same;
          to_come = u.to_come;
        }
