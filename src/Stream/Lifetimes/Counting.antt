-- ===== src/Stream/Lifetimes/Counting.antt =====
-- The use counts of the blocks, against the streams that there are.
use dklibrary.Common.{
  ℕ, ◌+◌, ◌≤◌, ◌<◌, ◌≡◌, refl, sym, ◌∙◌, arith, ◌==◌, if◌then◌else◌, false, List, [], ◌∷◌, ◌++◌,
  Bool-cases, inl, inr, ==→eq, eq→==, subst, ltb,
}
use dklibrary.StreamBuf.{Memory, StreamBuf, create, max_alloc}
use dklibrary.StreamBuf.Growth.{IsSound, create-IsSound}
use dklibrary.Stream.Shared.{update}
use dklibrary.Stream.Lifetimes.{Blocks, acquire, make_block}

-- 1 at the block itself.
abbrev pub at : ℕ → ℕ → ℕ
at b c = if b == c then 1 else 0

-- The streams on a block.
abbrev pub count : ℕ → List ℕ → ℕ
count c [] = 0
count c (b ∷ streams) = at b c + count c streams

pub count-append : (c : ℕ) (xs ys : List ℕ) → count c (xs ++ ys) ≡ count c xs + count c ys
count-append c [] ys = omega arith
count-append c (b ∷ xs) ys = omega (arith, count-append c xs ys)

-- free has been called once where malloc has given a buffer, and not at all where it has not.
abbrev pub freed_once : StreamBuf → ℕ
freed_once buf = if ltb 0 buf.size then 1 else 0

-- Of one block: one that streams stand on is whole and not freed; any other holds no bytes, and has
-- been freed.
pub record IsKept (o : Blocks) (streams : List ℕ) (c : ℕ) : Type 0 where
  pub counted : o.uses c ≡ count c streams
  pub unmade : o.next ≤ c → (count c streams ≡ 0) × (o.frees c ≡ 0)
  pub owned : 0 < count c streams → IsSound (o.buffers c) × (o.frees c ≡ 0)
  pub unowned :
      count c streams ≡ 0 → ((o.buffers c).bytes ≡ []) × (o.frees c ≡ freed_once (o.buffers c))

pub record IsCounted (o : Blocks) (streams : List ℕ) : Type 0 where
  pub kept : (c : ℕ) → IsKept o streams c
  pub intact : o.corrupted ≡ false

module _ {A : Type 0} (f : ℕ → A) (i : ℕ) (a : A) where
  pub update_self : update f i a i ≡ a
  update_self = rw (eq→== i i refl) refl

  pub update_other : (j : ℕ) → (i == j) ≡ false → update f i a j ≡ f j
  update_other j h = rw h refl

pub at_self : (b : ℕ) → at b b ≡ 1
at_self b = rw (eq→== b b refl) refl

pub at_other : (b c : ℕ) → (b == c) ≡ false → at b c ≡ 0
at_other b c h = rw h refl

-- A block that a change leaves alone.
pub same_block :
    (o o' : Blocks) (xs ys : List ℕ) (c : ℕ)
    → o'.uses c ≡ o.uses c
    → o'.buffers c ≡ o.buffers c
    → o'.frees c ≡ o.frees c
    → o.next ≤ o'.next
    → count c ys ≡ count c xs
    → IsKept o xs c
    → IsKept o' ys c
same_block o o' xs ys c uses buffers frees later same v = record {
  counted = uses ∙ v.counted ∙ sym same;
  unmade =
      λ h. let (none_on, unfreed) = v.unmade (omega arith) in (same ∙ none_on, frees ∙ unfreed);
  owned = λ h.
      let (sound, unfreed) = v.owned (omega (arith, same)) in (rw buffers sound, frees ∙ unfreed);
  unowned = λ h.
      let (no_bytes, once) = v.unowned (sym same ∙ h) in
      (rw buffers no_bytes, rw (frees, buffers) once);
}

-- The change of one block, and none of the others.
pub at_each : (P : ℕ → Type 0) (b : ℕ) → P b → ((c : ℕ) → (b == c) ≡ false → P c) → (c : ℕ) → P c
at_each P b here others c = elim (Bool-cases (b == c)) [
  | inl same ↦ subst P (==→eq b c same) here
  | inr other ↦ others c other
]

pub acquire-IsCounted :
    (o : Blocks) (streams : List ℕ) (b : ℕ)
    → IsCounted o streams
    → 0 < count b streams
    → IsCounted (acquire b o) (b ∷ streams)
unfolding acquire
acquire-IsCounted o streams b v there =
    let k = v.kept b in
    let uses = update_self o.uses b (o.uses b + 1) in
    record {
      kept =
          at_each (IsKept (acquire b o) (b ∷ streams)) b
            (record {
              counted = omega (arith, uses, k.counted, at_self b);
              unmade = λ h. absurd (let (none_on, _) = k.unmade h in omega (arith, none_on));
              owned = λ h. k.owned there;
              unowned = λ h. absurd (omega (arith, at_self b));
            })
            (λ c other.
              same_block o (acquire b o) streams (b ∷ streams) c
                (update_other o.uses b (o.uses b + 1) c other) refl refl (omega arith)
                (omega (arith, at_other b c other)) (v.kept c));
      intact = v.intact;
    }

module _ ⦃memory : Memory⦄ where
  pub make_block-IsCounted :
      (o : Blocks) (streams : List ℕ) (size : ℕ)
      → IsCounted o streams
      → size ≤ max_alloc
      → IsCounted (make_block size o) (o.next ∷ streams)
  unfolding make_block
  make_block-IsCounted o streams size v small =
      let b = o.next in
      let o' = make_block size o in
      let (none_on, unfreed) = (v.kept b).unmade (omega arith) in
      let (sound, _) = create-IsSound size small in
      record {
        kept =
            at_each (IsKept o' (b ∷ streams)) b
              (record {
                counted = omega (arith, update_self o.uses b 1, none_on, at_self b);
                unmade = λ h. absurd (omega arith);
                owned = λ h. (rw (update_self o.buffers b (create size)) sound, unfreed);
                unowned = λ h. absurd (omega (arith, at_self b));
              })
              (λ c other.
                same_block o o' streams (b ∷ streams) c (update_other o.uses b 1 c other)
                  (update_other o.buffers b (create size) c other) refl (omega arith)
                  (omega (arith, at_other b c other)) (v.kept c));
        intact = v.intact;
      }

pub writes-IsCounted :
    (o : Blocks) (streams : List ℕ) (b : ℕ) (buf : StreamBuf)
    → IsCounted o streams
    → 0 < count b streams
    → IsSound buf
    → IsCounted (record o { buffers = update o.buffers b buf }) streams
writes-IsCounted o streams b buf v there sound =
    let k = v.kept b in
    let o' : Blocks = record o { buffers = update o.buffers b buf } in
    record {
      kept =
          at_each (IsKept o' streams) b
            (record {
              counted = k.counted;
              unmade = k.unmade;
              owned = λ h. (rw (update_self o.buffers b buf) sound, (k.owned h).1);
              unowned = λ h. absurd (omega arith);
            })
            (λ c other.
              same_block o o' streams streams c refl (update_other o.buffers b buf c other) refl
                (omega arith) refl (v.kept c));
      intact = v.intact;
    }
