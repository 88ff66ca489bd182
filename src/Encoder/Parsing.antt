-- ===== src/Encoder/Parsing.antt =====
-- What decode of LibraryNet/Encoder.cpp is to do with the bytes that have been received, as a
-- function on lists of bytes.
use dklibrary.Common.{
  ℕ, ◌+◌, ◌^◌, ◌≤◌, ◌<◌, ◌≡◌, ◌⊎◌, inl, inr, refl, sym, ap, ◌∙◌, arith, Option, none, some, List,
  ◌++◌, length, take, drop, Outcome, returns, throws, Fault, assertion, tcp_exception, ltb,
  Bool-cases, ltb→lt, ltb→ge, take-append-drop, length-take, length-drop, ◌>>=◌, ◌>>◌, ret,
  if◌then◌else◌,
}
use dklibrary.StreamBuf.{Memory, max_alloc}
use dklibrary.Stream.{Stream}
use dklibrary.Stream.Valid
use dklibrary.Stream.Reading.{consume_lem, consume_short, advanced-Consumed}
use dklibrary.Stream.Codec.{of_le_bytes}
use dklibrary.RecvQueue.{RecvQueue}
use dklibrary.RecvQueue.Valid.{IsValid, contents, total_alloc}
use dklibrary.Encoder.{Coding, on_stream, open_stream, decode}
use dklibrary.Encoder.Validating.{size_field, decode-short, decode_rejects, decode_waits}
use dklibrary.Encoder.Opening.{decode_takes}

-- From a payload: the exception of doDecode, or the header and the content.
abbrev pub Unsealing : Type 0
Unsealing = List ℕ → Fault ⊎ List ℕ

-- Takes the header off.
abbrev pub strip : ℕ → Fault ⊎ List ℕ → List ℕ → Outcome (List ℕ) (Option (List ℕ))
strip header (inl e) rest = throws e rest
strip header (inr plain) rest =
    if ltb (length plain) header
    then throws assertion rest
    else returns (some (drop header plain)) rest

-- Behind the test of limitSize, with what the size field says.
abbrev pub sized : Option Fault → ℕ → ℕ → Unsealing → List ℕ → Outcome (List ℕ) (Option (List ℕ))
sized (some e) header n unsealing bytes = throws e bytes
sized none header n unsealing bytes =
    if ltb n (2 + header)
    then throws (tcp_exception "packet size too small!!!") bytes
    else if ltb (length bytes) (n + 4)
    then returns none bytes
    else strip header (unsealing (take n (drop 4 bytes))) (drop n (drop 4 bytes))

-- What a call of decode gives, and what it leaves of the bytes.
unfoldable pub parse : Coding → Unsealing → List ℕ → Outcome (List ℕ) (Option (List ℕ))
parse c unsealing bytes =
    if ltb (length bytes) (6 + c.header_size)
    then returns none bytes
    else let n = of_le_bytes (take 4 bytes) in
      sized (c.limit_size n) c.header_size n unsealing bytes

abbrev pub Unseals : Outcome Stream (Unit {0}) → Fault ⊎ List ℕ → Type 0
Unseals (throws e t) (inl f) = e ≡ f
Unseals (returns _ t) (inr plain) = Valid.IsValid t × (Valid.contents t ≡ plain)
Unseals _ _ = ⊥

-- The outcome of a call on the queue is the outcome on its bytes.
abbrev pub Parses : Outcome RecvQueue (Option Stream) → Outcome (List ℕ) (Option (List ℕ)) → Type 0
Parses (returns none q) (returns none rest) = IsValid q × (contents q ≡ rest)
Parses (returns (some s) q) (returns (some plain) rest) =
    Valid.IsValid s × (Valid.contents s ≡ plain) × IsValid q × (contents q ≡ rest)
Parses (throws e q) (throws f rest) = (e ≡ f) × IsValid q × (contents q ≡ rest)
Parses _ _ = ⊥

module _ (c : Coding) (q' : RecvQueue) (rest : List ℕ) (valid : IsValid q')
    (left : contents q' ≡ rest) where
  consumed :
      (s t : Stream) (plain : List ℕ)
      → c.do_decode s ≡ returns tt t
      → c.header_size ≤ max_alloc
      → Valid.IsValid t
      → Valid.contents t ≡ plain
      → Parses
          ((on_stream (open_stream c s) >>= λ s'. ret (some s')) q')
          (strip c.header_size (inr plain) rest)
  unfolding open_stream
  consumed s t plain ran small v holds =
      let same = ap length holds in
      elim (Bool-cases (ltb (length plain) c.header_size)) [
        | inl short ↦
            rw
              (
                short,
                ◌>>◌,
                ◌>>=◌,
                ran,
                consume_short t c.header_size v
                    (omega (arith, same, ltb→lt (length plain) c.header_size short)) small,
              )
              (refl, valid, left)
        | inr enough ↦
            let fits : c.header_size ≤ length (Valid.contents t) =
              omega (arith, same, ltb→ge (length plain) c.header_size enough) in
            let used = advanced-Consumed t c.header_size v fits in
            rw (enough, ◌>>◌, ◌>>=◌, ran, consume_lem t c.header_size v fits)
              (used.valid, used.remaining ∙ ap (drop c.header_size) holds, valid, left)
      ]

  unsealed :
      (s : Stream) (o : Outcome Stream (Unit {0})) (r : Fault ⊎ List ℕ)
      → c.do_decode s ≡ o
      → Unseals o r
      → c.header_size ≤ max_alloc
      → Parses
          ((on_stream (open_stream c s) >>= λ s'. ret (some s')) q')
          (strip c.header_size r rest)
  unfolding open_stream
  unsealed s (throws e t) (inl f) ran same small = rw (◌>>◌, ◌>>=◌, ran) (same, valid, left)
  unsealed s (throws e t) (inr plain) ran h small = absurd h
  unsealed s (returns _ t) (inl f) ran h small = absurd h
  unsealed s (returns tt t) (inr plain) ran (v, holds) small = consumed s t plain ran small v holds

module _ ⦃memory : Memory⦄ (c : Coding) (unsealing : Unsealing)
    (unseals : (s : Stream) (payload : List ℕ)
      → Valid.IsValid s
      → Valid.contents s ≡ payload
      → Unseals (c.do_decode s) (unsealing payload))
    (small : c.header_size ≤ max_alloc) (q : RecvQueue) (v : IsValid q)
    (bound : total_alloc q + max_alloc < 2 ^ 63) (word : size_field q < 2 ^ 32) where
  whole :
      6 + c.header_size ≤ length (contents q)
      → c.limit_size (size_field q) ≡ none
      → 2 + c.header_size ≤ size_field q
      → size_field q + 4 ≤ length (contents q)
      → Parses (decode c q) (
          strip c.header_size
            (unsealing (take (size_field q) (drop 4 (contents q))))
            (drop (size_field q) (drop 4 (contents q))))
  whole long allowed numbered all_there =
      let n = size_field q in
      let behind = drop 4 (contents q) in
      let payload = take n behind in
      let sizes : length payload ≡ n =
        omega (arith, length-take n behind, length-drop 4 (contents q)) in
      let cut : contents q ≡ take 4 (contents q) ++ (payload ++ drop n behind) =
        sym (take-append-drop 4 (contents q))
        ∙ ap (λ bs. take 4 (contents q) ++ bs) (sym (take-append-drop n behind)) in
      let field : length (take 4 (contents q)) ≡ 4 = omega (arith, length-take 4 (contents q)) in
      let (s, q', ran, valid, holds, valid', left) =
        decode_takes c payload (drop n behind) q v (take 4 (contents q)) field small cut (sym sizes)
          (omega (arith, sizes)) (omega (arith, sizes)) (ap c.limit_size sizes ∙ allowed) in
      rw ran (
        unsealed c q' (drop n behind) valid' left s (c.do_decode s) (unsealing payload) refl
          (unseals s payload valid holds) small)

  long_enough :
      (limited : Option Fault)
      → c.limit_size (size_field q) ≡ limited
      → 6 + c.header_size ≤ length (contents q)
      → Parses (decode c q) (sized limited c.header_size (size_field q) unsealing (contents q))
  long_enough (some e) limited long =
      rw (decode_rejects c q e v small long (inl limited)) (refl, v, refl)
  long_enough none allowed long =
      let n = size_field q in
      elim (Bool-cases (ltb n (2 + c.header_size))) [
        | inl less ↦
            rw
              (
                less,
                decode_rejects c q (tcp_exception "packet size too small!!!") v small long
                    (inr (allowed, ltb→lt n (2 + c.header_size) less, refl)),
              )
              (refl, v, refl)
        | inr fits ↦
            let numbered = ltb→ge n (2 + c.header_size) fits in
            elim (Bool-cases (ltb (length (contents q)) (n + 4))) [
              | inl missing ↦
                  let (q', ran, valid, same, room) =
                    decode_waits c q v small bound allowed numbered word long
                      (ltb→lt (length (contents q)) (n + 4) missing) in
                  rw (fits, missing, ran) (valid, same)
              | inr complete ↦
                  rw (fits, complete)
                    (whole long allowed numbered (ltb→ge (length (contents q)) (n + 4) complete))
            ]
      ]

  -- Whatever a valid queue has received, decode does with the bytes what parse does: with too few it
  -- returns nothing and keeps them; a size field that limitSize refuses, or that is too small, it
  -- throws at and keeps them; a frame it takes off, and returns the content behind the header, or
  -- throws what doDecode throws, or the failed assertion where doDecode leaves less than a header.
  -- doDecode does with every valid stream what `unsealing` does with its bytes, a header has at most
  -- 2 ^ 48 bytes, the queue has less than 2 ^ 63 bytes allocated, with 2 ^ 48 to spare, and the size
  -- field is below 2 ^ 32.
  pub decode-Parses : Parses (decode c q) (parse c unsealing (contents q))
  unfolding parse
  decode-Parses =
      let least = 6 + c.header_size in
      elim (Bool-cases (ltb (length (contents q)) least)) [
        | inl short ↦
            rw (short, decode-short c q v small (ltb→lt (length (contents q)) least short))
              (v, refl)
        | inr long ↦ rw long (
            long_enough (c.limit_size (size_field q)) refl
              (ltb→ge (length (contents q)) least long))
      ]
