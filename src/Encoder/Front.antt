-- ===== src/Encoder/Front.antt =====
-- decode of LibraryNet/Encoder.cpp with a frame at the front of the queue, of which any part has arrived.
use dklibrary.Common.{
  ℕ, ◌+◌, ◌^◌, ◌≤◌, ◌<◌, ◌≡◌, ◌⊎◌, inl, inr, refl, sym, ap, ◌∙◌, arith, none, some, List, ◌++◌,
  length, take, drop, take-append-drop, take-append_left, take-append_exact, drop-append_left,
  drop-append_exact, returns, append_assoc, length-append, ltb, Bool-cases, ltb→lt, ltb→ge,
}
use dklibrary.StreamBuf.{Memory, max_alloc}
use dklibrary.Stream.{Stream}
use dklibrary.Stream.Valid
use dklibrary.Stream.Codec.{le_bytes, of_le_bytes, to_u32}
use dklibrary.Stream.Codec.Scalar.{of_le_bytes-le_bytes}
use dklibrary.RecvQueue.{RecvQueue}
use dklibrary.RecvQueue.Valid.{IsValid, contents, total_alloc}
use dklibrary.Encoder.{Coding, decode}
use dklibrary.Encoder.Contract.{IsCoding}
use dklibrary.Encoder.Encoding.{frame}
use dklibrary.Encoder.Validating.{size_field, decode-short, decode_waits}
use dklibrary.Encoder.Decoding.{decode_delivers}

-- Of two ways to cut a list, the one with the longer front has the other's front in its own.
longer_front :
    (xs ys zs ws : List ℕ)
    → xs ++ ys ≡ zs ++ ws
    → length zs ≤ length xs
    → (mid : List ℕ) × (xs ≡ zs ++ mid) × (mid ++ ys ≡ ws)
longer_front xs ys zs ws e h =
    let n = length zs in
    (
      drop n xs,
      sym (take-append-drop n xs)
          ∙ ap (λ bs. bs ++ drop n xs)
              (sym (take-append_left n xs ys h) ∙ ap (take n) e ∙ take-append_exact zs ws),
      sym (drop-append_left n xs ys h) ∙ ap (drop n) e ∙ drop-append_exact zs ws,
    )

-- `wire` is a frame that stands for the plain content and that limitSize lets pass.
pub record IsFrame (c : Coding) (Sealed : List ℕ → List ℕ → Type 0) (wire plain : List ℕ)
    : Type 0 where
  pub payload : List ℕ
  pub sealed : Sealed plain payload
  pub framed : wire ≡ frame payload
  pub numbered : 2 ≤ length plain
  pub word : length payload < 2 ^ 32
  pub allowed : c.limit_size (length payload) ≡ none

module _ ⦃memory : Memory⦄ (c : Coding) (Sealed : List ℕ → List ℕ → Type 0)
    (coding : IsCoding c Sealed) where
  -- The size field of a frame, of which a part is in the queue.
  announced :
      (wire plain later more : List ℕ) (q : RecvQueue) (f : IsFrame c Sealed wire plain)
      → 4 ≤ length (contents q)
      → contents q ++ later ≡ wire ++ more
      → size_field q ≡ length f.payload
  announced wire plain later more q f enough e =
      let field = le_bytes 4 (to_u32 (length f.payload)) in
      let whole : to_u32 (length f.payload) ≡ length f.payload = omega (arith, f.word) in
      let same : take 4 (contents q) ≡ field =
        sym (take-append_left 4 (contents q) later enough)
        ∙ ap (take 4) (e ∙ ap (λ bs. bs ++ more) f.framed ∙ append_assoc field f.payload more)
        ∙ take-append_exact field (f.payload ++ more) in
      ap of_le_bytes same ∙ of_le_bytes-le_bytes 4 (to_u32 (length f.payload)) (omega arith) ∙ whole

  decode_partial :
      (wire plain later more : List ℕ) (q : RecvQueue)
      → IsFrame c Sealed wire plain
      → IsValid q
      → total_alloc q + max_alloc < 2 ^ 63
      → contents q ++ later ≡ wire ++ more
      → length (contents q) < length wire
      → (q' : RecvQueue) × (decode c q ≡ returns none q') × IsValid q' × (contents q' ≡ contents q)
  decode_partial wire plain later more q f v bound e less =
      elim (Bool-cases (ltb (length (contents q)) (6 + c.header_size))) [
        | inl few ↦ (q, decode-short c q v coding.small_header (ltb→lt _ _ few), v, refl)
        | inr many ↦
            let long = ltb→ge (length (contents q)) (6 + c.header_size) many in
            let n : size_field q ≡ length f.payload =
              announced wire plain later more q f (omega arith) e in
            let total =
              ap length f.framed
              ∙ length-append (le_bytes 4 (to_u32 (length f.payload))) f.payload in
            let least = coding.sealed_size plain f.payload f.sealed in
            let (q', ran, v', same, _) =
              decode_waits c q v coding.small_header bound (ap c.limit_size n ∙ f.allowed)
                (omega (arith, n, least, f.numbered)) (omega (arith, n, f.word)) long
                (omega (arith, n, total)) in
            (q', ran, v', same)
      ]

  -- decode with the front of a frame in the queue.
  pub decode_front :
      (wire plain later more : List ℕ) (q : RecvQueue)
      → IsFrame c Sealed wire plain
      → IsValid q
      → total_alloc q + max_alloc < 2 ^ 63
      → contents q ++ later ≡ wire ++ more
      → ((q' : RecvQueue) × (decode c q ≡ returns none q')
          × IsValid q'
          × (contents q' ≡ contents q)
          × (length (contents q) < length wire))
        ⊎ ((s : Stream) × (q' : RecvQueue) × (decode c q ≡ returns (some s) q')
            × (Valid.contents s ≡ plain)
            × IsValid q'
            × (contents q' ++ later ≡ more))
  decode_front wire plain later more q f v bound e =
      elim (Bool-cases (ltb (length (contents q)) (length wire))) [
        | inl less ↦
            let short = ltb→lt (length (contents q)) (length wire) less in
            let (q', ran, v', same) = decode_partial wire plain later more q f v bound e short in
            inl (q', ran, v', same, short)
        | inr whole ↦
            let (mid, front, back) =
              longer_front (contents q) later wire more e (ltb→ge _ _ whole) in
            let (s, q', ran, _, holds, v', left) =
              decode_delivers c Sealed coding plain f.payload mid f.sealed q v
                (front ∙ ap (λ bs. bs ++ mid) f.framed) f.numbered f.word f.allowed in
            inr (s, q', ran, holds, v', ap (λ bs. bs ++ later) left ∙ back)
      ]
