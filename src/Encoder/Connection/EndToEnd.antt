-- ===== src/Encoder/Connection/EndToEnd.antt =====
-- What one end of a connection gets of what the other end sends, from encode to decode.
use dklibrary.Common.{
  ℕ, ◌≤◌, ◌≡◌, sym, ap, ◌∙◌, none, some, List, [], ◌∷◌, ◌++◌, length, returns, append-nil, drop,
  zero, suc, refl, arith, Option, M, ret, ◌>>=◌, >>=-returns, length-append,
}
use dklibrary.StreamBuf.{Memory}
use dklibrary.Stream.{Stream}
use dklibrary.RecvQueue.{RecvQueue}
use dklibrary.RecvQueue.Valid.{IsValid, contents}
use dklibrary.SendQueue.{SendQueue, consume}
use dklibrary.SendQueue.Consuming.{pending, consume_queue_lem}
use dklibrary.Encoder.{Coding, decode}
use dklibrary.Encoder.Contract.{IsCoding}
use dklibrary.Encoder.Validating.{decode-short}
use dklibrary.Encoder.Decoding.{decode_delivers}
use dklibrary.Encoder.Connection.{Sent, plain, wires, plains, handed_over, AllSent}
use dklibrary.Encoder.Connection.Delivery.{
  IsSent-IsFrame, plains-append, Receives-plains, Receives-Delivering,
}
use dklibrary.Encoder.Connection.Transmission.{Transmits, Transmits-Underway}

module _ ⦃memory : Memory⦄ where
  -- As many calls of decode, and what they hand over.
  unfoldable pub drain : Coding → ℕ → M RecvQueue (List (List ℕ))
  drain c zero = ret []
  drain c (suc calls) = do
    found ← decode c
    others ← drain c calls
    ret (handed_over found ++ others)

  drain_step :
      (c : Coding) (calls : ℕ) (q q' q'' : RecvQueue) (found : Option Stream)
      (others : List (List ℕ))
      → decode c q ≡ returns found q'
      → drain c calls q' ≡ returns others q''
      → drain c (suc calls) q ≡ returns (handed_over found ++ others) q''
  unfolding drain
  drain_step c calls q q' q'' found others first rest =
      >>=-returns (decode c) (λ f. drain c calls >>= λ others'. ret (handed_over f ++ others')) q
        first
      ∙ >>=-returns (drain c calls) (λ others'. ret (handed_over found ++ others')) q' rest

  module _ (c : Coding) (Sealed : List ℕ → List ℕ → Type 0) (coding : IsCoding c Sealed) where
    drain_nothing :
        (calls : ℕ) (q : RecvQueue) → IsValid q → contents q ≡ [] → drain c calls q ≡ returns [] q
    unfolding drain
    drain_nothing zero q v e = refl
    drain_nothing (suc calls) q v e =
        drain_step c calls q q q none []
          (decode-short c q v coding.small_header (omega (arith, ap length e)))
          (drain_nothing calls q v e)

    -- What has arrived is delivered by as many calls as there are messages.
    drain_all :
        (todo : List Sent) (calls : ℕ) (q : RecvQueue)
        → IsValid q
        → AllSent c todo
        → contents q ≡ wires todo
        → length todo ≤ calls
        → (q' : RecvQueue) × (drain c calls q ≡ returns (plains todo) q') × (contents q' ≡ [])
    drain_all [] calls q v sent e enough = (q, drain_nothing calls q v e, e)
    drain_all (m ∷ todo) zero q v sent e enough = absurd (omega arith)
    drain_all (m ∷ todo) (suc calls) q v sent e enough =
        let f = IsSent-IsFrame c Sealed m coding sent.0 in
        let (s, q', ran, _, holds, v', left) =
          decode_delivers c Sealed coding (plain m) f.payload (wires todo) f.sealed q v
            (e ∙ ap (λ bs. bs ++ wires todo) f.framed) f.numbered f.word f.allowed in
        let (q'', rest, none_left) = drain_all todo calls q' v' sent.1 left (omega arith) in
        (
          q'',
          drain_step c calls q q' q'' (some s) (plains todo) ran rest
              ∙ ap (λ b. returns (b ∷ plains todo) q'') holds,
          none_left,
        )

module _ ⦃memory : Memory⦄ (c : Coding) (Sealed : List ℕ → List ℕ → Type 0)
    (coding : IsCoding c Sealed) (ms : List Sent) where
  -- At every moment of a connection the receiver has got the numbers and contents of the first
  -- messages that were sent, in their order; the bytes of all others are in its RecvQueue, on the
  -- way and in the SendQueue of the sender, in this order, with none lost, doubled or changed; and
  -- consume succeeds for as many of the pending bytes as the socket takes. The messages are encoded
  -- and pushed, and decoded, at any times; the socket takes and hands over any number of bytes at a
  -- time. The two ends use one coding, each frame is shorter than 2 ^ 32 bytes, limitSize lets it
  -- pass, and the RecvQueue has less than 2 ^ 63 bytes allocated at each decode.
  pub Transmits-plains :
      (p : SendQueue) (way : List ℕ) (q : RecvQueue) (got : List (List ℕ)) (n : ℕ)
      → Transmits c ms p way q got
      → n ≤ length (pending p)
      → (done : List Sent) × (todo : List Sent) × (p' : SendQueue) × (ms ≡ done ++ todo)
        × (got ≡ plains done)
        × IsValid q
        × (contents q ++ (way ++ pending p) ≡ wires todo)
        × (consume n p ≡ returns tt p')
        × (pending p' ≡ drop n (pending p))
  Transmits-plains p way q got n history fits =
      let u = Transmits-Underway c Sealed coding history in
      let (done, todo, split, delivered, valid, rest) =
        Receives-plains c Sealed coding ms (way ++ pending p) u.wire q got u.all_sent u.received
          u.to_come in
      let (p', ran, _, left) = consume_queue_lem n p u.ready fits in
      (done, todo, p', split, delivered, valid, rest, ran, left)

  -- When nothing is pending and nothing on the way, as many calls of decode as messages have been
  -- sent, or more, throw nothing, hand over the messages that are missing, in their order, and leave
  -- nothing in the RecvQueue: every message is delivered. The two ends use one coding, each frame is
  -- shorter than 2 ^ 32 bytes, and limitSize lets it pass.
  pub drain-Transmits :
      (p : SendQueue) (q : RecvQueue) (got : List (List ℕ)) (calls : ℕ)
      → Transmits c ms p [] q got
      → pending p ≡ []
      → length ms ≤ calls
      → (missing : List (List ℕ)) × (q' : RecvQueue) × (drain c calls q ≡ returns missing q')
        × (got ++ missing ≡ plains ms)
        × (contents q' ≡ [])
  drain-Transmits p q got calls history idle enough =
      let u = Transmits-Underway c Sealed coding history in
      let d =
        Receives-Delivering c Sealed coding ms ([] ++ pending p) u.received u.all_sent u.to_come in
      let arrived : contents q ≡ wires d.todo =
        sym (append-nil (contents q)) ∙ ap (λ bs. contents q ++ bs) (sym idle) ∙ d.pending in
      let (q', ran, none_left) =
        drain_all c Sealed coding d.todo calls q d.valid d.all_sent arrived
          (omega (arith, ap length d.split, length-append d.done d.todo)) in
      (
        plains d.todo,
        q',
        ran,
        ap (λ l. l ++ plains d.todo) d.delivered
            ∙ sym (plains-append d.done d.todo)
            ∙ ap plains (sym d.split),
        none_left,
      )
