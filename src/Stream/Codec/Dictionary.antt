-- ===== src/Stream/Codec/Dictionary.antt =====
-- std::unordered_map through << and >>.
use dklibrary.Common.{
  returns, append-nil, sym, ap, ◌∙◌, ℕ, ◌+◌, ◌^◌, ◌<◌, ◌≤◌, ◌≡◌, refl, ◌∙◌, arith, Bool, true, none,
  some, List, [], ◌∷◌, ◌++◌, length, append_assoc, length-append, ◌>>=◌, ◌>>◌, ◌↔◌, if◌then◌else◌,
  Option-cases, inl, inr,
}
use dklibrary.StreamBuf.{Memory, max_alloc}
use dklibrary.Stream.{Stream}
use dklibrary.Stream.Valid.{IsValid, contents}
use dklibrary.Stream.Codec.{
  Codec, Dict, assign, le_bytes, to_u32, get_scalar, put_scalar, get_entries, get_map, put_all,
  put_map,
}
use dklibrary.Stream.Codec.Laws.{IsCodec, Puts, Gets, Puts-then, Gets-then, Gets-ret}
use dklibrary.Stream.Codec.Scalar.{get_scalar-front, scalar-IsCodec}
use dklibrary.Stream.Codec.Sequence.{All, wire_all, seq_wire, put_all-Puts}

module _ {K V : Type 0} (same : K → K → Bool) where
  -- The map after `values[key] = value` for each entry in turn.
  abbrev pub assign_all : List (K × V) → Dict K V → Dict K V
  assign_all [] m = m
  assign_all (e ∷ es) m = assign_all es (assign same e.0 e.1 m)

  abbrev pub find : List (K × V) → Dict K V
  find [] k = none
  find (e ∷ es) k = if same e.0 k then some e.1 else find es k

  -- No key occurs twice.
  abbrev pub Distinct : List (K × V) → Type 0
  Distinct [] = Unit
  Distinct (e ∷ es) = (find es e.0 ≡ none) × Distinct es

  module _ (same_iff : (a b : K) → (same a b ≡ true) ↔ (a ≡ b)) where
    assign_all-find :
        (es : List (K × V)) (m : Dict K V) (k : K)
        → Distinct es
        → find es k ≡ none
        → assign_all es m k ≡ m k
    assign_all-find [] m k d h = refl
    assign_all-find (e ∷ es) m k d h = ground (arith, assign_all-find es (assign same e.0 e.1 m) k)

    assign_all-found :
        (es : List (K × V)) (m : Dict K V) (k : K) (v : V)
        → Distinct es
        → find es k ≡ some v
        → assign_all es m k ≡ some v
    assign_all-found [] m k v d h = ground arith
    assign_all-found (e ∷ es) m k v d h = ground (
      arith,
      same_iff e.0 k,
      assign_all-find es (assign same e.0 e.1 m) k,
      assign_all-found es (assign same e.0 e.1 m) k v,
    )

    -- A map filled from entries with distinct keys answers as the entries do.
    pub assign_all-eq-find :
        (es : List (K × V)) (k : K) → Distinct es → assign_all es (λ _. none) k ≡ find es k
    assign_all-eq-find es k d = elim (Option-cases (find es k)) [
      | inl e ↦ rw e (assign_all-find es (λ _. none) k d e)
      | inr (v, e) ↦ rw e (assign_all-found es (λ _. none) k v d e)
    ]

module _ {K V : Type 0} (PK : K → Type 0) (PV : V → Type 0) (key_wire : K → List ℕ)
    (value_wire : V → List ℕ) where
  abbrev pub entry_wire : K × V → List ℕ
  entry_wire e = key_wire e.0 ++ value_wire e.1

  abbrev pub EntryFits : K × V → Type 0
  EntryFits e = PK e.0 × PV e.1

  module _ (same : K → K → Bool) {ck : Codec K} {cv : Codec V} (lk : IsCodec ck PK key_wire)
      (lv : IsCodec cv PV value_wire) where
    get_entries-front :
        (es : List (K × V)) (m : Dict K V) (rest : List ℕ) (s : Stream)
        → All EntryFits es
        → IsValid s
        → contents s ≡ wire_all entry_wire es ++ rest
        → Gets (get_entries same ck.get cv.get (length es) m) s (assign_all same es m) rest
    unfolding get_entries
    get_entries-front [] m rest s h v e = Gets-ret m s rest v e
    get_entries-front (x ∷ es) m rest s h v e =
        let others = wire_all entry_wire es ++ rest in
        let next =
          λ (k : K) (w : V). get_entries same ck.get cv.get (length es) (assign same k w m) in
        let whole = assign_all same es (assign same x.0 x.1 m) in
        let split =
          e
          ∙ append_assoc (entry_wire x) (wire_all entry_wire es) rest
          ∙ append_assoc (key_wire x.0) (value_wire x.1) others in
        Gets-then ck.get (λ k. cv.get >>= next k) s x.0 (value_wire x.1 ++ others) whole rest
          (lk.get_lem x.0 (value_wire x.1 ++ others) s h.0.0 v split)
          (λ t vt et.
            Gets-then cv.get (next x.0) t x.1 others whole rest
              (lv.get_lem x.1 others t h.0.1 vt et)
              (λ u vu eu. get_entries-front es (assign same x.0 x.1 m) rest u h.1 vu eu))

    pub get_map-front :
        (es : List (K × V)) (rest : List ℕ) (s : Stream)
        → length es < 2 ^ 32
        → All EntryFits es
        → IsValid s
        → contents s ≡ seq_wire entry_wire es ++ rest
        → Gets (get_map same ck.get cv.get) s (assign_all same es (λ _. none)) rest
    unfolding get_map
    get_map-front es rest s short h v e =
        let n = length es in
        let others = wire_all entry_wire es ++ rest in
        Gets-then (get_scalar 4) (λ size. get_entries same ck.get cv.get size (λ _. none)) s n
          others (assign_all same es (λ _. none)) rest
          (get_scalar-front s 4 n others (omega arith) v
            (e ∙ append_assoc (le_bytes 4 n) (wire_all entry_wire es) rest))
          (λ t vt et. get_entries-front es (λ _. none) rest t h vt et)

  module _ ⦃memory : Memory⦄ {ck : Codec K} {cv : Codec V} (lk : IsCodec ck PK key_wire)
      (lv : IsCodec cv PV value_wire) where
    put_entry-Puts :
        (e : K × V) (s : Stream)
        → EntryFits e
        → IsValid s
        → s.written + length (entry_wire e) ≤ max_alloc
        → Puts (ck.put e.0 >> cv.put e.1) s (entry_wire e)
    put_entry-Puts e s h v room =
        let total = length-append (key_wire e.0) (value_wire e.1) in
        Puts-then (ck.put e.0) (cv.put e.1) s (key_wire e.0) (value_wire e.1)
          (lk.put_lem e.0 s h.0 v (omega (arith, total)))
          (λ t f. lv.put_lem e.1 t h.1 f.valid (omega (arith, total, f.advanced)))

    pub put_map-Puts :
        (es : List (K × V)) (s : Stream)
        → length es < 2 ^ 32
        → All EntryFits es
        → IsValid s
        → s.written + length (seq_wire entry_wire es) ≤ max_alloc
        → Puts (put_map ck.put cv.put es) s (seq_wire entry_wire es)
    unfolding put_map
    put_map-Puts es s short h v room =
        let n = length es in
        let total = length-append (le_bytes 4 n) (wire_all entry_wire es) in
        let put = λ (e : K × V). ck.put e.0 >> cv.put e.1 in
        let whole : to_u32 n ≡ n = omega arith in
        rw whole (
          Puts-then (put_scalar 4 n) (put_all put es) s (le_bytes 4 n) (wire_all entry_wire es)
            ((scalar-IsCodec 4).put_lem n s (omega arith) v (omega (arith, total)))
            (λ t f.
              put_all-Puts EntryFits entry_wire put put_entry-Puts es t h f.valid
                (omega (arith, total, f.advanced))))

    -- A map of fewer than 2 ^ 32 entries with distinct keys comes back from an empty stream: the map
    -- that is read answers each key as the entries do, and nothing is left to read.
    pub get_map-put_map :
        (same : K → K → Bool)
        → ((a b : K) → (same a b ≡ true) ↔ (a ≡ b))
        → (es : List (K × V)) (s : Stream) → Distinct same es
        → length es < 2 ^ 32
        → All EntryFits es
        → IsValid s
        → contents s ≡ []
        → s.written + length (seq_wire entry_wire es) ≤ max_alloc
        → (t u : Stream) × (m : Dict K V) × (put_map ck.put cv.put es s ≡ returns tt t)
          × (get_map same ck.get cv.get t ≡ returns m u)
          × ((k : K) → m k ≡ find same es k)
          × (contents u ≡ [])
    get_map-put_map same same_iff es s distinct short h v e room =
        let (t, ran, f) = put_map-Puts es s short h v room in
        let (u, ran', _, left) = get_map-front same lk lv es [] t short h f.valid (
          f.appended
          ∙ ap (λ bs. bs ++ seq_wire entry_wire es) e
          ∙ sym (append-nil (seq_wire entry_wire es))) in
        (
          t,
          u,
          assign_all same es (λ _. none),
          ran,
          ran',
          λ k. assign_all-eq-find same same_iff es k distinct,
          left,
        )
