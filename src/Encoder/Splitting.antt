-- ===== src/Encoder/Splitting.antt =====
-- How decode of LibraryNet/Encoder.cpp cuts all the bytes of a connection into messages and errors,
-- whatever the bytes are, as calls of parse on the whole.
use dklibrary.Common.{
  ℕ, ◌+◌, ◌≤◌, ◌≡◌, ◌⊎◌, ◌≢◌, assertion, tcp_exception, inl, inr, refl, sym, ap, subst, ◌∙◌, arith,
  Option, none, some, List, [], ◌∷◌, ◌++◌, length, take, drop, Outcome, returns, throws, Fault, ltb,
  Bool-cases, false, ltb→ge, ge→ltb, length-append, length-drop, take-append_left, drop-append_left,
  none-some, some_injective,
}
use dklibrary.Stream.Codec.{of_le_bytes}
use dklibrary.Encoder.{Coding}
use dklibrary.Encoder.Parsing.{Unsealing, strip, sized, parse}

-- An exception, or the content of a message.
abbrev pub Result : Type 0
Result = Fault ⊎ List ℕ

-- The outcome with more bytes behind those that are left.
abbrev extend : List ℕ → Outcome (List ℕ) (Option (List ℕ)) → Outcome (List ℕ) (Option (List ℕ))
extend more (returns found rest) = returns found (rest ++ more)
extend more (throws e rest) = throws e (rest ++ more)

-- What an outcome gives and what it leaves, if it gives anything.
abbrev pub result_of : Outcome (List ℕ) (Option (List ℕ)) → Option (Result × List ℕ)
result_of (returns none rest) = none
result_of (returns (some plain) rest) = some (inr plain, rest)
result_of (throws e rest) = some (inl e, rest)

strip-result :
    (header : ℕ) (r : Fault ⊎ List ℕ) (rest : List ℕ) → none ≢ result_of (strip header r rest)
strip-result header (inl e) rest = none-some (inl e, rest)
strip-result header (inr plain) rest = elim (Bool-cases (ltb (length plain) header)) [
  | inl short ↦ rw short (none-some (inl assertion, rest))
  | inr enough ↦ rw enough (none-some (inr (drop header plain), rest))
]

strip-extend :
    (header : ℕ) (r : Fault ⊎ List ℕ) (rest more : List ℕ)
    → strip header r (rest ++ more) ≡ extend more (strip header r rest)
strip-extend header (inl e) rest more = refl
strip-extend header (inr plain) rest more = elim (Bool-cases (ltb (length plain) header)) [
  | inl short ↦ rw short refl
  | inr enough ↦ rw enough refl
]

module _ (header : ℕ) (unsealing : Unsealing) (bytes more : List ℕ) where
  -- Behind the size field, more bytes change nothing but what is left, or parse waits.
  sized-extend :
      (limited : Option Fault) (n : ℕ)
      → 4 ≤ length bytes
      → (sized limited header n unsealing bytes ≡ returns none bytes)
        ⊎ ((sized limited header n unsealing (bytes ++ more)
              ≡ extend more (sized limited header n unsealing bytes))
            × (none ≢ result_of (sized limited header n unsealing bytes)))
  sized-extend (some e) n long = inr (refl, none-some (inl e, bytes))
  sized-extend none n long = elim (Bool-cases (ltb n (2 + header))) [
    | inl small ↦
        let refused = inl (tcp_exception "packet size too small!!!") in
        inr (rw small (refl, none-some (refused, bytes)))
    | inr fits ↦ elim (Bool-cases (ltb (length bytes) (n + 4))) [
      | inl missing ↦ inl (rw (fits, missing) refl)
      | inr complete ↦
          let there : n + 4 ≤ length bytes = ltb→ge (length bytes) (n + 4) complete in
          let also : ltb (length (bytes ++ more)) (n + 4) ≡ false =
            ge→ltb (length (bytes ++ more)) (n + 4) (omega (arith, length-append bytes more)) in
          let behind : drop 4 (bytes ++ more) ≡ drop 4 bytes ++ more =
            drop-append_left 4 bytes more long in
          let inside : n ≤ length (drop 4 bytes) = omega (arith, length-drop 4 bytes) in
          let r = unsealing (take n (drop 4 bytes)) in
          let rest = drop n (drop 4 bytes) in
          inr (
            rw
              (
                fits,
                complete,
                also,
                behind,
                take-append_left n (drop 4 bytes) more inside,
                drop-append_left n (drop 4 bytes) more inside,
              )
              (strip-extend header r rest more, strip-result header r rest))
    ]
  ]

module _ (c : Coding) (unsealing : Unsealing) where
  parse-extend :
      (bytes more : List ℕ)
      → (parse c unsealing bytes ≡ returns none bytes)
        ⊎ ((parse c unsealing (bytes ++ more) ≡ extend more (parse c unsealing bytes))
            × (none ≢ result_of (parse c unsealing bytes)))
  unfolding parse
  parse-extend bytes more =
      let least = 6 + c.header_size in
      elim (Bool-cases (ltb (length bytes) least)) [
        | inl short ↦ inl (rw short refl)
        | inr long ↦
            let enough : 4 ≤ length bytes = omega (arith, ltb→ge (length bytes) least long) in
            let also : ltb (length (bytes ++ more)) least ≡ false =
              ge→ltb (length (bytes ++ more)) least
                (omega (arith, length-append bytes more, ltb→ge (length bytes) least long)) in
            rw (long, also, take-append_left 4 bytes more enough)
              (sized-extend c.header_size unsealing bytes more
                (c.limit_size (of_le_bytes (take 4 bytes))) (of_le_bytes (take 4 bytes)) enough)
      ]

returns_injective :
    (rest bytes : List ℕ)
    → ◌≡◌ {A = Outcome (List ℕ) (Option (List ℕ))} (returns none rest) (returns none bytes)
    → rest ≡ bytes
returns_injective rest bytes h = cc

extend-result :
    (o : Outcome (List ℕ) (Option (List ℕ))) (r : Result) (rest more : List ℕ)
    → result_of o ≡ some (r, rest)
    → result_of (extend more o) ≡ some (r, rest ++ more)
extend-result (returns none left) r rest more h = absurd (none-some (r, rest) h)
extend-result (returns (some plain) left) r rest more h =
    ap (λ p. some (p.0, p.1 ++ more)) (some_injective (inr plain, left) (r, rest) h)
extend-result (throws e left) r rest more h =
    ap (λ p. some (p.0, p.1 ++ more)) (some_injective (inl e, left) (r, rest) h)

module _ (c : Coding) (unsealing : Unsealing) where
  -- As many calls of parse as there are results, one after another.
  pub data Splits : List ℕ → List Result → List ℕ → Type 0 where
    stop : {bytes : List ℕ} → Splits bytes [] bytes
    next :
        {bytes rest left : List ℕ} {results : List Result} (r : Result)
        → result_of (parse c unsealing bytes) ≡ some (r, rest)
        → Splits rest results left
        → Splits bytes (r ∷ results) left

  pub Splits-snoc :
      {bytes rest left : List ℕ} {results : List Result} (r : Result)
      → Splits bytes results rest
      → result_of (parse c unsealing rest) ≡ some (r, left)
      → Splits bytes (results ++ (r ∷ [])) left
  Splits-snoc r stop last = next r last stop
  Splits-snoc r (next r' first others) last = next r' first (Splits-snoc r others last)

  parse-append :
      (bytes rest more : List ℕ) (r : Result)
      → result_of (parse c unsealing bytes) ≡ some (r, rest)
      → result_of (parse c unsealing (bytes ++ more)) ≡ some (r, rest ++ more)
  parse-append bytes rest more r h = elim (parse-extend c unsealing bytes more) [
    | inl waits ↦ absurd (none-some (r, rest) (sym (ap result_of waits) ∙ h))
    | inr (same, _) ↦ ap result_of same ∙ extend-result (parse c unsealing bytes) r rest more h
  ]

  -- Where parse gives nothing it keeps all bytes.
  pub parse-keeps :
      (bytes rest : List ℕ) → parse c unsealing bytes ≡ returns none rest → rest ≡ bytes
  parse-keeps bytes rest h = elim (parse-extend c unsealing bytes []) [
    | inl waits ↦ returns_injective rest bytes (sym h ∙ waits)
    | inr (_, gives) ↦ absurd (gives (sym (ap result_of h)))
  ]

  -- Bytes that come later change nothing about the messages and errors so far.
  pub Splits-append :
      {bytes left : List ℕ} {results : List Result} (more : List ℕ)
      → Splits bytes results left
      → Splits (bytes ++ more) results (left ++ more)
  Splits-append more stop = stop
  Splits-append more (next {bytes = bytes} {rest = rest} r first others) =
      next r (parse-append bytes rest more r first) (Splits-append more others)

  -- Where one has more results, it has those of the other first.
  pub Splits-same :
      {bytes left left' : List ℕ} {results results' : List Result}
      → Splits bytes results left
      → Splits bytes results' left'
      → length results ≡ length results'
      → (results ≡ results') × (left ≡ left')
  Splits-same stop stop e = (refl, refl)
  Splits-same stop (next r' h' others') e = absurd (omega arith)
  Splits-same (next r h others) stop e = absurd (omega arith)
  Splits-same (next {rest = rest} {left = left} {results = results} r h others)
        (next {rest = rest'} {left = left'} {results = results'} r' h' others') e =
      let same = some_injective (r, rest) (r', rest') (sym h ∙ h') in
      let again : Splits rest results' left' =
        subst (λ bs. Splits bs results' left') (sym (ap (λ p. p.1) same)) others' in
      let (equal, left_same) = Splits-same others again (omega arith) in
      (rw (ap (λ p. p.0) same, equal) refl, left_same)
