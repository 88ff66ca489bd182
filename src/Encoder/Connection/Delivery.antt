-- ===== src/Encoder/Connection/Delivery.antt =====
-- What the receiver at the end of a connection gets: the messages that were sent, in their order.
use dklibrary.Common.{
  ℕ, ◌+◌, ◌-◌, ◌^◌, ◌<◌, ◌≡◌, inl, inr, refl, sym, ap, ◌∙◌, arith, none, some, Option, List, [],
  ◌∷◌, ◌++◌, length, returns, append_assoc, append-nil, length-append, subst,
}
use dklibrary.StreamBuf.{Memory, max_alloc}
use dklibrary.Stream.{Stream}
use dklibrary.Stream.Valid
use dklibrary.Stream.Codec.{le_bytes, to_u32}
use dklibrary.RecvQueue.{RecvQueue}
use dklibrary.RecvQueue.Valid.{IsValid, contents, total_alloc}
use dklibrary.RecvQueue.Arrival.{Arrives-contents}
use dklibrary.Encoder.{Coding, decode}
use dklibrary.Encoder.Contract.{IsCoding}
use dklibrary.Encoder.Encoding.{frame, encode_lem}
use dklibrary.Encoder.Validating.{decode-short}
use dklibrary.Encoder.Front.{IsFrame, decode_front}
use dklibrary.Encoder.Connection.{
  Sent, plain, wires, plains, handed_over, IsSent, AllSent, Receives, opened, arrives, decodes,
}

module _ ⦃memory : Memory⦄ where
  -- The first messages have been delivered, and those to come are in the queue and on the way.
  pub record Delivering (c : Coding) (ms : List Sent) (later : List ℕ) (q : RecvQueue)
      (got : List (List ℕ)) : Type 0 where
    pub done : List Sent
    pub todo : List Sent
    pub split : ms ≡ done ++ todo
    pub delivered : got ≡ plains done
    pub valid : IsValid q
    pub pending : contents q ++ later ≡ wires todo
    pub all_sent : AllSent c todo

  pub IsSent-IsFrame :
      (c : Coding) (Sealed : List ℕ → List ℕ → Type 0) (m : Sent)
      → IsCoding c Sealed
      → IsSent c m
      → IsFrame c Sealed (Valid.contents m.stream) (plain m)
  IsSent-IsFrame c Sealed m coding sent =
      let (t, payload, ran, _, sealed, holds) =
        encode_lem c Sealed m.message m.options m.body coding sent.law sent.room in
      let encoded = sent.encoded in
      let same : m.stream ≡ t = cc in
      let wire : Valid.contents m.stream ≡ frame payload = ap Valid.contents same ∙ holds in
      let total : length (Valid.contents m.stream) ≡ 4 + length payload =
        omega
          (arith, ap length wire, length-append (le_bytes 4 (to_u32 (length payload))) payload) in
      let size : length payload ≡ length (Valid.contents m.stream) - 4 = omega arith in
      record {
        payload = payload;
        sealed = sealed;
        framed = wire;
        numbered = omega (arith, length-append (le_bytes 2 m.message.no) m.body);
        word = omega (arith, sent.word);
        allowed = ap c.limit_size size ∙ sent.allowed;
      }

  pub plains-append : (ms more : List Sent) → plains (ms ++ more) ≡ plains ms ++ plains more
  plains-append [] more = refl
  plains-append (m ∷ ms) more = ap (λ ps. plain m ∷ ps) (plains-append ms more)

  -- The state behind a call of decode, and when there is no more to come.
  abbrev pub Progress : Coding → List Sent → List ℕ → RecvQueue → List (List ℕ) → Type 0
  Progress c ms later q got =
      (found : Option Stream) × (q' : RecvQueue) × (decode c q ≡ returns found q')
      × Delivering c ms later q' (got ++ handed_over found)
      × (found ≡ none → later ≡ [] → got ≡ plains ms)

  waiting :
      (c : Coding) (ms : List Sent) (later : List ℕ) (q q' : RecvQueue) (got : List (List ℕ))
      → Delivering c ms later q got
      → IsValid q'
      → contents q' ≡ contents q
      → Delivering c ms later q' (got ++ [])
  waiting c ms later q q' got d v same = record {
    done = d.done;
    todo = d.todo;
    split = d.split;
    delivered = append-nil got ∙ d.delivered;
    valid = v;
    pending = ap (λ bs. bs ++ later) same ∙ d.pending;
    all_sent = d.all_sent;
  }

  module _ (c : Coding) (Sealed : List ℕ → List ℕ → Type 0) (coding : IsCoding c Sealed)
      (ms : List Sent) where
    decode_idle :
        (later : List ℕ) (q : RecvQueue) (got : List (List ℕ)) (d : Delivering c ms later q got)
        → d.todo ≡ []
        → Progress c ms later q got
    decode_idle later q got d idle =
        let empty = d.pending ∙ ap wires idle in
        let none_left =
          decode-short c q d.valid coding.small_header
            (omega (arith, ap length empty, length-append (contents q) later)) in
        (
          none,
          q,
          none_left,
          waiting c ms later q q got d d.valid refl,
          λ _ _.
              d.delivered
              ∙ ap plains (sym (d.split ∙ ap (λ l. d.done ++ l) idle ∙ append-nil d.done)),
        )

    decode_next :
        (later : List ℕ) (q : RecvQueue) (got : List (List ℕ)) (d : Delivering c ms later q got)
        (m : Sent) (rest : List Sent)
        → d.todo ≡ m ∷ rest
        → total_alloc q + max_alloc < 2 ^ 63
        → Progress c ms later q got
    decode_next later q got d m rest busy bound =
        let sent : AllSent c (m ∷ rest) = subst (AllSent c) busy d.all_sent in
        let f = IsSent-IsFrame c Sealed m coding sent.0 in
        elim (decode_front c Sealed coding (Valid.contents m.stream) (plain m) later (wires rest) q
          f d.valid bound (d.pending ∙ ap wires busy)) [
            | inl (q', ran, v', same, short) ↦ (
              none,
              q',
              ran,
              waiting c ms later q q' got d v' same,
              λ _ over. absurd (
                  omega (
                    arith,
                    short,
                    ap length over,
                    ap length (d.pending ∙ ap wires busy),
                    length-append (contents q) later,
                    length-append (Valid.contents m.stream) (wires rest),
                  )),
            )
            | inr (s, q', ran, holds, v', left) ↦ (
              some s,
              q',
              ran,
              record {
                done = d.done ++ (m ∷ []);
                todo = rest;
                split =
                    d.split ∙ ap (λ l. d.done ++ l) busy ∙ sym (append_assoc d.done (m ∷ []) rest);
                delivered =
                    ap (λ g. g ++ (Valid.contents s ∷ [])) d.delivered
                    ∙ ap (λ p. plains d.done ++ (p ∷ [])) holds
                    ∙ sym (plains-append d.done (m ∷ []));
                valid = v';
                pending = left;
                all_sent = sent.1;
              },
              λ e. absurd (let f : ⊥ = cc in f),
            )
          ]

    Progress-Delivering :
        (later : List ℕ) (q r : RecvQueue) (got : List (List ℕ)) (found : Option Stream)
        → Progress c ms later q got
        → decode c q ≡ returns found r
        → Delivering c ms later r (got ++ handed_over found)
    Progress-Delivering later q r got found (found', q', ran, d, _) ran' =
        let same_found : found' ≡ found = cc in
        let same_queue : q' ≡ r = cc in
        subst (λ x. Delivering c ms later x (got ++ handed_over found)) same_queue
          (subst (λ f. Delivering c ms later q' (got ++ handed_over f)) same_found d)

    decode-Progress :
        (later : List ℕ) (q : RecvQueue) (got : List (List ℕ)) (d : Delivering c ms later q got)
        → total_alloc q + max_alloc < 2 ^ 63
        → Progress c ms later q got
    decode-Progress later q got d bound = go d.todo refl
      where
        go : (todo : List Sent) → d.todo ≡ todo → Progress c ms later q got
        go [] e = decode_idle later q got d e
        go (m ∷ rest) e = decode_next later q got d m rest e bound

    pub Receives-Delivering :
        {wire : List ℕ} {q : RecvQueue} {got : List (List ℕ)} (later : List ℕ)
        → Receives c wire q got
        → AllSent c ms
        → wire ++ later ≡ wires ms
        → Delivering c ms later q got
    Receives-Delivering later opened sent e = record {
      done = [];
      todo = ms;
      split = refl;
      delivered = refl;
      valid = record { in_order = tt; bounded = omega arith };
      pending = e;
      all_sent = sent;
    }
    Receives-Delivering later
          (arrives {wire = wire} {bytes = bytes} {p = p} {r = r} before arrival same) sent e =
        let on_way = sym (append_assoc wire bytes later) ∙ ap (λ bs. bs ++ later) (sym same) ∙ e in
        let d = Receives-Delivering (bytes ++ later) before sent on_way in
        let (valid, holds) = Arrives-contents arrival d.valid in
        record {
          done = d.done;
          todo = d.todo;
          split = d.split;
          delivered = d.delivered;
          valid = valid;
          pending =
              ap (λ bs. bs ++ later) holds ∙ append_assoc (contents p) bytes later ∙ d.pending;
          all_sent = d.all_sent;
        }
    Receives-Delivering later (decodes {p = p} {r = r} {got = got} found before bound ran same) sent
          e =
        let d = Receives-Delivering later before sent e in
        subst (Delivering c ms later r) (sym same)
          (Progress-Delivering later p r got found (decode-Progress later p got d bound) ran)

    -- Messages are delivered in the order in which they were encoded, with none lost, doubled or
    -- changed: however their bytes are cut into chunks and whenever decode is called in between, the
    -- streams that decode has returned hold the numbers and contents of the first messages, and the
    -- bytes of the others are in the queue and on the way. The two ends use one coding, limitSize
    -- lets each frame pass, and the queue has less than 2 ^ 63 bytes allocated at each decode.
    pub Receives-plains :
        (later wire : List ℕ) (q : RecvQueue) (got : List (List ℕ))
        → AllSent c ms
        → Receives c wire q got
        → wire ++ later ≡ wires ms
        → (done : List Sent) × (todo : List Sent) × (ms ≡ done ++ todo)
          × (got ≡ plains done)
          × IsValid q
          × (contents q ++ later ≡ wires todo)
    Receives-plains later wire q got sent history e =
        let d = Receives-Delivering later history sent e in
        (d.done, d.todo, d.split, d.delivered, d.valid, d.pending)
