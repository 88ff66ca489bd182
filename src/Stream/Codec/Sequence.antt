-- ===== src/Stream/Codec/Sequence.antt =====
-- std::vector and std::deque through << and >>.
use dklibrary.Common.{
  ℕ, ◌+◌, ◌^◌, ◌<◌, ◌≤◌, ◌≡◌, refl, sym, ap, ◌∙◌, arith, List, [], ◌∷◌, ◌++◌, length, min, M,
  returns, append_assoc, append-nil, length-append, ◌>>=◌, ret,
}
use dklibrary.StreamBuf.{Memory, max_alloc}
use dklibrary.Stream.{Stream, readable_size}
use dklibrary.Stream.Valid.{IsValid, contents}
use dklibrary.Stream.Writing.{Appended}
use dklibrary.Stream.Codec.{
  Codec, le_bytes, to_u32, get_scalar, put_scalar, get_all, get_seq, put_all, put_seq, seq,
}
use dklibrary.Stream.Codec.Laws.{IsCodec, Puts, Gets, Puts-then, Gets-then, Gets-ret}
use dklibrary.Stream.Codec.Scalar.{get_scalar-front, scalar-IsCodec}
use dklibrary.Stream.Codec.Text.{readable_size_lem}

abbrev pub All {ℓ} : {A : Type 0} → (A → Type ℓ) → List A → Type ℓ
All P [] = Unit
All P (x ∷ xs) = P x × All P xs

abbrev pub wire_all : {A : Type 0} → (A → List ℕ) → List A → List ℕ
wire_all wire [] = []
wire_all wire (x ∷ xs) = wire x ++ wire_all wire xs

-- The wire form: the number of elements as a uint32_t, then the elements.
abbrev pub seq_wire : {A : Type 0} → (A → List ℕ) → List A → List ℕ
seq_wire wire xs = le_bytes 4 (length xs) ++ wire_all wire xs

Appended-nil : (s : Stream) → IsValid s → Appended s [] s
Appended-nil s v = record {
  valid = v;
  appended = sym (append-nil (contents s));
  same_read = refl;
  advanced = omega arith;
}

module _ ⦃memory : Memory⦄ {A : Type 0} (P : A → Type 0) (wire : A → List ℕ) where
  pub put_all-Puts :
      (put : A → M Stream (Unit {0}))
      → ((a : A) (s : Stream)
          → P a
          → IsValid s
          → s.written + length (wire a) ≤ max_alloc
          → Puts (put a) s (wire a))
      → (xs : List A) (s : Stream) → All P xs
      → IsValid s
      → s.written + length (wire_all wire xs) ≤ max_alloc
      → Puts (put_all put xs) s (wire_all wire xs)
  unfolding put_all
  put_all-Puts put law [] s h v room = (s, refl, Appended-nil s v)
  put_all-Puts put law (x ∷ xs) s h v room =
      let total = length-append (wire x) (wire_all wire xs) in
      Puts-then (put x) (put_all put xs) s (wire x) (wire_all wire xs)
        (law x s h.0 v (omega (arith, total)))
        (λ t f. put_all-Puts put law xs t h.1 f.valid (omega (arith, total, f.advanced)))

module _ {A : Type 0} (P : A → Type 0) (wire : A → List ℕ) (get : M Stream A)
    (law : (a : A) (rest : List ℕ) (s : Stream)
      → P a
      → IsValid s
      → contents s ≡ wire a ++ rest
      → Gets get s a rest) where
  pub get_all-front :
      (xs : List A) (rest : List ℕ) (s : Stream)
      → All P xs
      → IsValid s
      → contents s ≡ wire_all wire xs ++ rest
      → Gets (get_all get (length xs)) s xs rest
  unfolding get_all
  get_all-front [] rest s h v e = Gets-ret [] s rest v e
  get_all-front (x ∷ xs) rest s h v e =
      let others = wire_all wire xs ++ rest in
      Gets-then get (λ a. get_all get (length xs) >>= λ as'. ret (a ∷ as')) s x others (x ∷ xs) rest
        (law x others s h.0 v (e ∙ append_assoc (wire x) (wire_all wire xs) rest))
        (λ t vt et.
          Gets-then (get_all get (length xs)) (λ as'. ret (x ∷ as')) t xs rest (x ∷ xs) rest
            (get_all-front xs rest t h.1 vt et) (λ u vu eu. Gets-ret (x ∷ xs) u rest vu eu))

  length-le-wire_all :
      ((a : A) → P a → 0 < length (wire a))
      → (xs : List A) → All P xs
      → length xs ≤ length (wire_all wire xs)
  length-le-wire_all solid [] h = omega arith
  length-le-wire_all solid (x ∷ xs) h = omega (
    arith,
    length-append (wire x) (wire_all wire xs),
    solid x h.0,
    length-le-wire_all solid xs h.1,
  )

  -- The loop runs for every element, because each takes at least a byte of what is there.
  pub get_seq-front :
      ((a : A) → P a → 0 < length (wire a))
      → (xs : List A) (rest : List ℕ) (s : Stream) → length xs < 2 ^ 32
      → All P xs
      → IsValid s
      → contents s ≡ seq_wire wire xs ++ rest
      → Gets (get_seq get) s xs rest
  unfolding get_seq
  get_seq-front solid xs rest s short h v e =
      let n = length xs in
      let others = wire_all wire xs ++ rest in
      Gets-then (get_scalar 4)
        (λ size.
          (λ t. returns (readable_size t) t) >>= λ available. get_all get (min size available))
        s n others xs rest
        (get_scalar-front s 4 n others (omega arith) v
          (e ∙ append_assoc (le_bytes 4 n) (wire_all wire xs) rest))
        (λ t vt et.
          let enough : min n (readable_size t) ≡ n = omega (
            arith,
            readable_size_lem t vt,
            ap length et,
            length-append (wire_all wire xs) rest,
            length-le-wire_all solid xs h,
          ) in
          rw enough (get_all-front xs rest t h vt et))

module _ ⦃memory : Memory⦄ {A : Type 0} {c : Codec A} (P : A → Type 0) (wire : A → List ℕ) where
  -- A vector of fewer than 2 ^ 32 elements comes back, if each element is stored in at least a byte.
  pub seq-IsCodec :
      IsCodec c P wire
      → ((a : A) → P a → 0 < length (wire a))
      → IsCodec (seq c) (λ xs. (length xs < 2 ^ 32) × All P xs) (seq_wire wire)
  unfolding put_seq
  seq-IsCodec law solid = record {
    put_lem = λ xs s h v room.
        let n = length xs in
        let total = length-append (le_bytes 4 n) (wire_all wire xs) in
        let whole : to_u32 n ≡ n = omega arith in
        rw whole (
          Puts-then (put_scalar 4 n) (put_all c.put xs) s (le_bytes 4 n) (wire_all wire xs)
            ((scalar-IsCodec 4).put_lem n s (omega arith) v (omega (arith, total)))
            (λ t f.
              put_all-Puts P wire c.put law.put_lem xs t h.1 f.valid
                (omega (arith, total, f.advanced))));
    get_lem = λ xs rest s h v e. get_seq-front P wire c.get law.get_lem solid xs rest s h.0 h.1 v e;
  }
