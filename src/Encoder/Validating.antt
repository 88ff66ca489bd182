-- ===== src/Encoder/Validating.antt =====
-- validateSize and enough of LibraryNet/Encoder.cpp: the branches of decode that give no message.
use dklibrary.Common.{
  ℕ, ◌+◌, ◌-◌, ◌^◌, ◌≤◌, ◌<◌, ◌≡◌, ◌⊎◌, refl, sym, ap, ◌∙◌, arith, true, false, Option, none, some,
  length, take, returns, throws, Fault, tcp_exception, ltb, Bool-cases, inl, inr, le→leb, lt→ltb,
  ge→ltb, ltb→ge, >>=-returns, ◌>>=◌, ◌>>◌, ret, if◌then◌else◌,
}
use dklibrary.Common.Word.{add64, sub64}
use dklibrary.StreamBuf.{Memory, max_alloc}
use dklibrary.Stream.Codec.{of_le_bytes}
use dklibrary.RecvQueue
use dklibrary.RecvQueue.{RecvQueue, readable_size, writable_size}
use dklibrary.RecvQueue.Valid.{
  IsValid, contents, space, total_alloc, length-contents-le, length-space-le,
}
use dklibrary.RecvQueue.Sizes.{sizes_lem}
use dklibrary.RecvQueue.Preparing.{prepare_lem}
use dklibrary.RecvQueue.Peeking.{peek_queue_lem}
use dklibrary.Encoder.{
  Coding, minimum_size, minimum_packet_size, check_size, validate_size, enough, extract,
  decode_sized, decode,
}

-- The size that the first four bytes announce.
abbrev pub size_field : RecvQueue → ℕ
size_field q = of_le_bytes (take 4 (contents q))

module _ (c : Coding) (q : RecvQueue) (v : IsValid q) (small : c.header_size ≤ max_alloc) where
  validate_size-short : length (contents q) < 6 + c.header_size → validate_size c q ≡ returns none q
  unfolding validate_size
  validate_size-short short =
      let few : ltb (readable_size q) (minimum_packet_size c) ≡ true =
        lt→ltb (readable_size q) (minimum_packet_size c) (omega (arith, (sizes_lem q v).0)) in
      rw few

  pub validate_size-checks :
      6 + c.header_size ≤ length (contents q) → validate_size c q ≡ check_size c (size_field q) q
  unfolding validate_size
  validate_size-checks long =
      let many : ltb (readable_size q) (minimum_packet_size c) ≡ false =
        ge→ltb (readable_size q) (minimum_packet_size c) (omega (arith, (sizes_lem q v).0)) in
      let seen : RecvQueue.peek 4 q ≡ returns (take 4 (contents q)) q =
        peek_queue_lem 4 q v ∙ rw (le→leb 4 (length (contents q)) (omega arith)) in
      rw many (>>=-returns (RecvQueue.peek 4) (λ bytes. check_size c (of_le_bytes bytes)) q seen)

  pub check_size-fits :
      (n : ℕ)
      → c.limit_size n ≡ none
      → 2 + c.header_size ≤ n
      → check_size c n q ≡ returns (some n) q
  unfolding check_size
  check_size-fits n allowed fits =
      let test : ltb n (minimum_size c) ≡ false = ge→ltb n (minimum_size c) (omega arith) in
      rw (allowed, ◌>>◌, ◌>>=◌, test)

  check_size-small :
      (n : ℕ)
      → c.limit_size n ≡ none
      → n < 2 + c.header_size
      → check_size c n q ≡ throws (tcp_exception "packet size too small!!!") q
  unfolding check_size
  check_size-small n allowed less =
      let test : ltb n (minimum_size c) ≡ true = lt→ltb n (minimum_size c) (omega arith) in
      rw (allowed, ◌>>◌, ◌>>=◌, test)

  check_size-limited : (n : ℕ) (e : Fault) → c.limit_size n ≡ some e → check_size c n q ≡ throws e q
  unfolding check_size
  check_size-limited n e limited = rw (limited, ◌>>◌, ◌>>=◌)

module _ ⦃memory : Memory⦄ where
  decode-throws :
      (c : Coding) (q : RecvQueue) (e : Fault)
      → validate_size c q ≡ throws e q
      → decode c q ≡ throws e q
  unfolding decode
  decode-throws c q e h = rw (◌>>=◌, h)

  pub decode-sized :
      (c : Coding) (q : RecvQueue) (size : Option ℕ)
      → validate_size c q ≡ returns size q
      → decode c q ≡ decode_sized c size q
  unfolding decode
  decode-sized c q size h = >>=-returns (validate_size c) (decode_sized c) q h

  -- With fewer bytes than the smallest frame has, decode returns nothing and changes nothing.
  pub decode-short :
      (c : Coding) (q : RecvQueue)
      → IsValid q
      → c.header_size ≤ max_alloc
      → length (contents q) < 6 + c.header_size
      → decode c q ≡ returns none q
  unfolding decode_sized
  decode-short c q v small short = decode-sized c q none (validate_size-short c q v small short)

  -- A size field that limitSize refuses, or that is too small for a header and a number, makes
  -- decode throw; the queue stays as it was.
  pub decode_rejects :
      (c : Coding) (q : RecvQueue) (e : Fault)
      → IsValid q
      → c.header_size ≤ max_alloc
      → 6 + c.header_size ≤ length (contents q)
      → (c.limit_size (size_field q) ≡ some e)
        ⊎ ((c.limit_size (size_field q) ≡ none)
            × (size_field q < 2 + c.header_size)
            × (e ≡ tcp_exception "packet size too small!!!"))
      → decode c q ≡ throws e q
  decode_rejects c q e v small long (inl limited) = decode-throws c q e (
      validate_size-checks c q v small long
      ∙ check_size-limited c q v small (size_field q) e limited)
  decode_rejects c q e v small long (inr (allowed, less, same)) = decode-throws c q e (
      validate_size-checks c q v small long
      ∙ check_size-small c q v small (size_field q) allowed less
      ∙ ap (λ f. throws f q) (sym same))

  pub enough_complete :
      (q : RecvQueue) (n : ℕ)
      → IsValid q
      → n < 2 ^ 32
      → n + 4 ≤ length (contents q)
      → enough n q ≡ returns true q
  unfolding enough
  enough_complete q n v small long =
      let all_there : ltb (readable_size q) (add64 n 4) ≡ false =
        ge→ltb (readable_size q) (add64 n 4) (omega (arith, (sizes_lem q v).0)) in
      rw all_there

  enough_waits :
      (q : RecvQueue) (n : ℕ)
      → IsValid q
      → n < 2 ^ 32
      → total_alloc q + max_alloc < 2 ^ 63
      → length (contents q) < n + 4
      → (q' : RecvQueue) × (enough n q ≡ returns false q')
        × IsValid q'
        × (contents q' ≡ contents q)
        × (n + 4 ≤ length (contents q') + length (space q'))
  unfolding enough
  enough_waits q n v small bound short =
      let (readable, writable) = sizes_lem q v in
      let missing : ltb (readable_size q) (add64 n 4) ≡ true =
        lt→ltb (readable_size q) (add64 n 4) (omega arith) in
      let fills = length-contents-le q v.in_order in
      let free = length-space-le q v.in_order in
      let test = ltb (add64 (readable_size q) (writable_size q)) (add64 n 4) in
      elim (Bool-cases test) [
        | inl grows ↦
            let k = sub64 (add64 n 4) (readable_size q) in
            let more : k ≡ n + 4 - length (contents q) = omega arith in
            let (q', ran, valid, same, room, _) = prepare_lem k q v (omega arith) bound in
            (q', rw (missing, grows, ◌>>=◌, ran), valid, same, omega (arith, ap length same))
        | inr roomy ↦
            let total = ltb→ge _ _ roomy in
            (q, rw (missing, roomy, ◌>>=◌), v, refl, omega (arith, total))
      ]

  -- Once 6 bytes and those of the header have been received, and while the frame is incomplete, decode
  -- returns nothing, keeps every byte that has been received, and leaves the queue with room for the
  -- whole frame. The size field counts the number and the header at least, is below 2 ^ 32, and
  -- limitSize lets it pass; the header has at most 2 ^ 48 bytes, and the valid queue less than
  -- 2 ^ 63 - 2 ^ 48 allocated.
  pub decode_waits :
      (c : Coding) (q : RecvQueue)
      → IsValid q
      → c.header_size ≤ max_alloc
      → total_alloc q + max_alloc < 2 ^ 63
      → c.limit_size (size_field q) ≡ none
      → 2 + c.header_size ≤ size_field q
      → size_field q < 2 ^ 32
      → 6 + c.header_size ≤ length (contents q)
      → length (contents q) < size_field q + 4
      → (q' : RecvQueue) × (decode c q ≡ returns none q')
        × IsValid q'
        × (contents q' ≡ contents q)
        × (size_field q + 4 ≤ length (contents q') + length (space q'))
  unfolding decode_sized
  decode_waits c q v small bound allowed fits word long short =
      let n = size_field q in
      let (q', ran, valid, same, room) = enough_waits q n v word bound short in
      (
        q',
        decode-sized c q (some n)
              (validate_size-checks c q v small long ∙ check_size-fits c q v small n allowed fits)
            ∙ >>=-returns (enough n)
                (λ complete. if complete then (extract c n >>= λ s. ret (some s)) else ret none) q
                ran,
        valid,
        same,
        room,
      )
