-- ===== src/Stream/Codec/Truncated.antt =====
-- What >> does when a container announces more than the stream holds.
use dklibrary.Common.{
  ℕ, ◌^◌, ◌<◌, ◌≡◌, refl, ap, ◌∙◌, arith, true, List, [], ◌∷◌, ◌%◌, ◌++◌, length, min, returns,
  throws, ◌>>=◌, M, none, ◌*◌, ◌+◌, ◌≤◌, zero, suc, Bool, Bool-cases, inl, inr, ltb→lt, ltb→ge,
  take, drop, length-drop, append-nil, ltb, lt→ltb, stream_exception, sym,
}
use native.Mathlib.Nat.{suc-mul}
use dklibrary.Stream.{Stream, readable_size}
use dklibrary.Stream.Valid.{IsValid, contents}
use dklibrary.Stream.Reading.{read_bytes-short, read_bytes-enough, advanced, advanced-Consumed}
use dklibrary.Stream.Codec.{
  Dict, assign, get_entries, get_map, of_le_bytes, le_bytes, get_scalar, get_all, get_seq,
  get_string,
}
use dklibrary.Stream.Codec.Laws.{Gets, Gets-then}
use dklibrary.Stream.Codec.Scalar.{get_scalar-front}
use dklibrary.Stream.Codec.Sequence.{All, wire_all, get_all-front}
use dklibrary.Stream.Codec.Text.{readable_size_lem}

module _ (s : Stream) (n : ℕ) (present : List ℕ) (short : length present < n) (fits : n < 2 ^ 32)
    (v : IsValid s) (e : contents s ≡ le_bytes 4 n ++ present) where
  get_string-truncated :
      (t : Stream) × (get_string s ≡ throws (stream_exception "Stream exception") t)
      × (contents t ≡ present)
  unfolding get_string
  get_string-truncated =
      let (t, ran, vt, et) = get_scalar-front s 4 n present (omega arith) v e in
      let available : length (contents t) ≡ length present = ap length et in
      let refused : ltb (readable_size t) n ≡ true =
        lt→ltb (readable_size t) n (omega (arith, readable_size_lem t vt)) in
      (t, rw (ran, ◌>>=◌, refused), et)

wire_all-bytes :
    (present : List ℕ) → All (λ b. b < 256 ^ 1) present → wire_all (le_bytes 1) present ≡ present
wire_all-bytes [] h = refl
wire_all-bytes (b ∷ bs) h =
    let kept : b % 256 ≡ b = omega arith in rw kept (ap (λ cs. b ∷ cs) (wire_all-bytes bs h.1))

get_seq-truncated :
    (s : Stream) (n : ℕ) (present : List ℕ)
    → length present < n
    → n < 2 ^ 32
    → IsValid s
    → contents s ≡ le_bytes 4 n ++ present
    → All (λ b. b < 256 ^ 1) present
    → Gets (get_seq (get_scalar 1)) s present []
unfolding get_seq
get_seq-truncated s n present short fits v e bytes =
    Gets-then (get_scalar 4)
      (λ size. (λ t. returns (readable_size t) t) >>= λ available.
        get_all (get_scalar 1) (min size available))
      s n present present [] (get_scalar-front s 4 n present (omega arith) v e)
      (λ t vt et.
        let cut : min n (readable_size t) ≡ length present =
          omega (arith, readable_size_lem t vt, ap length et) in
        rw cut (
          get_all-front (λ b. b < 256 ^ 1) (le_bytes 1) (get_scalar 1)
            (λ b rest u h vu eu. get_scalar-front u 1 b rest h vu eu) present [] t bytes vt
            (et ∙ sym (append-nil (wire_all (le_bytes 1) present) ∙ wire_all-bytes present bytes))))

-- A read that runs out of bytes.
abbrev pub Underflows : {A : Type 0} → M Stream A → Stream → Type 0
Underflows m s = (t : Stream) × (m s ≡ throws (stream_exception "Stream buffer underflow") t)

get_scalar-short :
    (s : Stream) (width : ℕ)
    → IsValid s
    → length (contents s) < width
    → get_scalar width s ≡ throws (stream_exception "Stream buffer underflow") s
unfolding get_scalar
get_scalar-short s width v short = rw (◌>>=◌, read_bytes-short s width v short)

get_scalar-enough :
    (s : Stream) (width : ℕ)
    → IsValid s
    → width ≤ length (contents s)
    → (value : ℕ) × Gets (get_scalar width) s value (drop width (contents s))
unfolding get_scalar
get_scalar-enough s width v enough =
    let used = advanced-Consumed s width v enough in
    (
      of_le_bytes (take width (contents s)),
      (
        advanced s width,
        rw (◌>>=◌, read_bytes-enough s width v enough),
        used.valid,
        used.remaining,
      ),
    )

module _ (same : ℕ → ℕ → Bool) (a b : ℕ) where
  get_entries-short :
      (n : ℕ) (m : Dict ℕ ℕ) (s : Stream)
      → IsValid s
      → length (contents s) < n * (a + b)
      → Underflows (get_entries same (get_scalar a) (get_scalar b) n m) s
  unfolding get_entries
  get_entries-short zero m s v short = absurd (omega arith)
  get_entries-short (suc n) m s v short = elim (Bool-cases (ltb (length (contents s)) a)) [
    | inl no_key ↦ (s, rw (◌>>=◌, get_scalar-short s a v (ltb→lt _ _ no_key)))
    | inr key_there ↦
        let (key, (t, ran, vt, et)) = get_scalar-enough s a v (ltb→ge _ _ key_there) in
        let left = length-drop a (contents s) in
        elim (Bool-cases (ltb (length (contents t)) b)) [
          | inl no_value ↦ (t, rw (◌>>=◌, ran, get_scalar-short t b vt (ltb→lt _ _ no_value)))
          | inr value_there ↦
              let (value, (u, ran', vu, eu)) = get_scalar-enough t b vt (ltb→ge _ _ value_there) in
              let left' = length-drop b (contents t) in
              let (w, failed) = get_entries-short n (assign same key value m) u vu (
                omega (
                  arith,
                  ap length et,
                  left,
                  ap length eu,
                  left',
                  suc-mul n (a + b),
                  ltb→ge _ _ key_there,
                  ltb→ge _ _ value_there,
                )) in
              (w, rw (◌>>=◌, ran, ran') failed)
        ]
  ]

-- A size field that announces more than there is: a string is refused, with only the field used up;
-- a map of scalars, of `a` and `b` bytes, throws a stream exception where its entries need more
-- bytes than are left; but a vector of bytes is read, without an exception, as the fewer bytes that
-- are left. `n` is what is announced, `present` what is there.
pub truncated_lem :
    (same : ℕ → ℕ → Bool) (a b : ℕ) (s : Stream) (n : ℕ) (present : List ℕ)
    → length present < n
    → length present < n * (a + b)
    → n < 2 ^ 32
    → IsValid s
    → contents s ≡ le_bytes 4 n ++ present
    → All (λ v. v < 256 ^ 1) present
    → ((t : Stream) × (get_string s ≡ throws (stream_exception "Stream exception") t)
        × (contents t ≡ present))
      × Underflows (get_map same (get_scalar a) (get_scalar b)) s
      × Gets (get_seq (get_scalar 1)) s present []
unfolding get_map
truncated_lem same a b s n present short few fits v e bytes =
    let (t, ran, vt, et) = get_scalar-front s 4 n present (omega arith) v e in
    let (u, failed) =
      get_entries-short same a b n (λ _. none) t vt (omega (arith, few, ap length et)) in
    (
      get_string-truncated s n present short fits v e,
      (u, rw (◌>>=◌, ran) failed),
      get_seq-truncated s n present short fits v e bytes,
    )
