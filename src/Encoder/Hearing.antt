-- ===== src/Encoder/Hearing.antt =====
-- What decode of LibraryNet/Encoder.cpp gives at one end of a connection, whatever bytes arrive there.
use dklibrary.Common.{
  ℕ, ◌+◌, ◌^◌, ◌<◌, ◌≤◌, ◌≡◌, inl, inr, refl, ap, arith, Option, none, some, List, [], ◌∷◌, ◌++◌,
  length, Outcome, returns, throws, append-nil,
}
use dklibrary.StreamBuf.{Memory, max_alloc}
use dklibrary.Stream.{Stream}
use dklibrary.Stream.Valid
use dklibrary.RecvQueue.{RecvQueue}
use dklibrary.RecvQueue.Valid.{IsValid, contents, total_alloc}
use dklibrary.RecvQueue.Arrival.{Arrives, Arrives-contents}
use dklibrary.Encoder.{Coding, decode}
use dklibrary.Encoder.Validating.{size_field}
use dklibrary.Encoder.Parsing.{Unsealing, Unseals, Parses, parse, decode-Parses}
use dklibrary.Encoder.Splitting.{
  Result, Splits, stop, Splits-snoc, Splits-append, Splits-same, result_of, parse-keeps,
}

-- What a call of decode has given, and the queue that it has left.
abbrev pub given : Outcome RecvQueue (Option Stream) → List Result
given (returns none q) = []
given (returns (some s) q) = inr (Valid.contents s) ∷ []
given (throws e q) = inl e ∷ []

abbrev pub left_by : Outcome RecvQueue (Option Stream) → RecvQueue
left_by (returns found q) = q
left_by (throws e q) = q

module _ ⦃memory : Memory⦄ where
  -- The bytes that have arrived since the start, the queue now, and the messages and the exceptions
  -- that the calls of decode have given. The four bytes of a size field are below 2 ^ 32.
  pub data Hears (c : Coding) : List ℕ → RecvQueue → List Result → Type 0 where
    opened : Hears c [] [] []
    arrives :
        {wire bytes all : List ℕ} {p r : RecvQueue} {results : List Result}
        → Hears c wire p results
        → Arrives p bytes r
        → all ≡ wire ++ bytes
        → Hears c all r results
    decodes :
        {wire : List ℕ} {p r : RecvQueue} {results all : List Result}
        → Hears c wire p results
        → total_alloc p + max_alloc < 2 ^ 63
        → size_field p < 2 ^ 32
        → r ≡ left_by (decode c p)
        → all ≡ results ++ given (decode c p)
        → Hears c wire r all

  module _ (c : Coding) (unsealing : Unsealing)
      (unseals : (s : Stream) (payload : List ℕ)
        → Valid.IsValid s
        → Valid.contents s ≡ payload
        → Unseals (c.do_decode s) (unsealing payload))
      (small : c.header_size ≤ max_alloc) where
    abbrev IsSplit : List ℕ → RecvQueue → List Result → Type 0
    IsSplit wire q results = IsValid q × Splits c unsealing wire results (contents q)

    decoded :
        (wire : List ℕ) (results : List Result) (rest : List ℕ)
        (o : Outcome RecvQueue (Option Stream)) (w : Outcome (List ℕ) (Option (List ℕ)))
        → Splits c unsealing wire results rest
        → parse c unsealing rest ≡ w
        → Parses o w
        → IsSplit wire (left_by o) (results ++ given o)
    decoded wire results rest (returns none q) (returns none left) splits parsed (v, e) =
        let same = parse-keeps c unsealing rest left parsed in
        (v, rw (append-nil results, e, same) splits)
    decoded wire results rest (returns (some s) q) (returns (some plain) left) splits parsed
          (_, holds, v, e) =
        (v, rw (holds, e) (Splits-snoc c unsealing (inr plain) splits (ap result_of parsed)))
    decoded wire results rest (throws e q) (throws f left) splits parsed (same, v, e') =
        (v, rw (same, e') (Splits-snoc c unsealing (inl f) splits (ap result_of parsed)))
    decoded wire results rest (returns none q) (returns (some plain) left) splits parsed h =
        absurd h
    decoded wire results rest (returns (some s) q) (returns none left) splits parsed h = absurd h
    decoded wire results rest (returns none q) (throws f left) splits parsed h = absurd h
    decoded wire results rest (returns (some s) q) (throws f left) splits parsed h = absurd h
    decoded wire results rest (throws e q) (returns found left) splits parsed h = absurd h

    Hears-IsSplit :
        {wire : List ℕ} {q : RecvQueue} {results : List Result}
        → Hears c wire q results
        → IsSplit wire q results
    Hears-IsSplit opened = (record { in_order = tt; bounded = omega arith }, stop)
    Hears-IsSplit (arrives {bytes = bytes} {r = r} {results = results} before arrival same) =
        let (v, splits) = Hears-IsSplit before in
        let (v', e) = Arrives-contents arrival v in
        (v', rw (same, e) (Splits-append c unsealing bytes splits))
    Hears-IsSplit (decodes {wire = wire} {p = p} {results = results} before bound word left all) =
        let (v, splits) = Hears-IsSplit before in
        rw (left, all)
          (decoded wire results (contents p) (decode c p) (parse c unsealing (contents p)) splits
            refl (decode-Parses c unsealing unseals small p v bound word))

    -- What decode gives depends on the bytes alone, whatever they are: of two histories with the same
    -- bytes, cut into chunks and decoded at any times, that have as many messages and exceptions, these
    -- are the same, in the same order, and the queues hold the same bytes; they are those of parse,
    -- called once for each on all the bytes. doDecode does with every valid stream what `unsealing`
    -- does with its bytes, a header has at most 2 ^ 48 bytes, and at each decode the queue has less
    -- than 2 ^ 63 bytes allocated, with 2 ^ 48 to spare, and the size field is below 2 ^ 32.
    pub Hears-same :
        (wire : List ℕ) (q q' : RecvQueue) (results results' : List Result)
        → Hears c wire q results
        → Hears c wire q' results'
        → length results ≡ length results'
        → (results ≡ results')
          × (contents q ≡ contents q')
          × Splits c unsealing wire results (contents q)
    Hears-same wire q q' results results' history history' e =
        let (_, splits) = Hears-IsSplit history in
        let (_, splits') = Hears-IsSplit history' in
        let (same, left) = Splits-same c unsealing splits splits' e in (same, left, splits)
