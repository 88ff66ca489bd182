-- ===== src/Stream/Lifetimes/Safety.antt =====
-- What the streams of a program can rely on of their blocks, whatever becomes of the streams.
use dklibrary.Common.{
  ℕ, ◌+◌, ◌≤◌, ◌<◌, ◌≡◌, ◌⊎◌, inl, inr, refl, ap, subst, ◌∙◌, arith, false, List, [], ◌∷◌, ◌++◌,
  length, returns, Bool-cases, ◌==◌, ==→eq,
}
use dklibrary.StreamBuf.{Memory, max_alloc}
use dklibrary.StreamBuf.Growth.{IsSound}
use dklibrary.Stream.{Stream, write}
use dklibrary.Stream.Valid.{IsValid}
use dklibrary.Stream.Writing.{write_lem}
use dklibrary.Stream.Lifetimes.{
  Blocks, no_blocks, acquire, assign_block, Step, construct, copy, assign, destroy, writes, Reach,
  initially, next,
}
use dklibrary.Stream.Lifetimes.Counting.{
  at, count, count-append, freed_once, IsCounted, at_self, acquire-IsCounted, make_block-IsCounted,
  writes-IsCounted,
}
use dklibrary.Stream.Lifetimes.Releasing.{positive, release-IsCounted}

-- A stream among others.
count-among :
    (c : ℕ) (before behind : List ℕ) (b : ℕ)
    → count c (before ++ (b ∷ behind)) ≡ at b c + count c (before ++ behind)
count-among c before behind b =
    omega (arith, count-append c before (b ∷ behind), count-append c before behind)

stands :
    (streams before behind : List ℕ) (b : ℕ)
    → streams ≡ before ++ (b ∷ behind)
    → 0 < count b streams
stands streams before behind b e =
    omega (arith, ap (count b) e, count-among b before behind b, at_self b)

assigned :
    (o : Blocks) (streams before behind before' behind' : List ℕ) (from to : ℕ)
    → streams ≡ before ++ (from ∷ behind)
    → streams ≡ before' ++ (to ∷ behind')
    → IsCounted o streams
    → IsCounted (assign_block from to o) (before ++ (to ∷ behind))
unfolding assign_block
assigned o streams before behind before' behind' from to e e' v =
    let copied = acquire-IsCounted o streams to v (stands streams before' behind' to e') in
    release-IsCounted (acquire to o) (to ∷ streams) (before ++ (to ∷ behind)) from copied
      (omega (arith, stands streams before behind from e))
      (λ c.
        omega
          (arith, ap (count c) e, count-among c before behind from, count-among c before behind to))

no_blocks-IsCounted : IsCounted no_blocks []
no_blocks-IsCounted = record {
  kept = λ c. record {
    counted = refl;
    unmade = λ h. (refl, refl);
    owned = λ h. absurd (omega arith);
    unowned = λ h. (refl, refl);
  };
  intact = refl;
}

module _ ⦃memory : Memory⦄ where
  write-IsSound :
      (s t : Stream) (values : List ℕ)
      → IsValid s
      → s.written + length values ≤ max_alloc
      → write values s ≡ returns tt t
      → IsSound t.buf
  write-IsSound s t values v small ran =
      let (t', ran', a) = write_lem s values v small in
      let same : t' ≡ t = cc in subst (λ u. IsSound u.buf) same a.valid.sound

  Step-IsCounted :
      {o o' : Blocks} {streams streams' : List ℕ}
      → Step o streams o' streams'
      → IsCounted o streams
      → IsCounted o' streams'
  Step-IsCounted {o = o} {streams = streams} (construct size small) v =
      make_block-IsCounted o streams size v small
  Step-IsCounted {o = o} {streams = streams} (copy before behind b e) v =
      acquire-IsCounted o streams b v (stands streams before behind b e)
  Step-IsCounted {o = o} {streams = streams} (assign before behind before' behind' from to e e') v =
      assigned o streams before behind before' behind' from to e e' v
  Step-IsCounted {o = o} {streams = streams} (destroy before behind b e) v =
      release-IsCounted o streams (before ++ behind) b v (stands streams before behind b e)
        (λ c. ap (count c) e ∙ count-among c before behind b)
  Step-IsCounted {o = o} {streams = streams}
        (writes before behind b s t values e valid same small ran) v =
      writes-IsCounted o streams b t.buf v (stands streams before behind b e)
        (write-IsSound s t values valid small ran)

  Reach-IsCounted : {o : Blocks} {streams : List ℕ} → Reach o streams → IsCounted o streams
  Reach-IsCounted initially = no_blocks-IsCounted
  Reach-IsCounted (next before step) = Step-IsCounted step (Reach-IsCounted before)

  -- Whatever streams are constructed, copied, assigned, written to and destroyed, in whatever order:
  -- the use count of a block is the number of the streams on it; a block with a stream on it is
  -- whole, and free has not been called for its buffer; a block without one holds no bytes, and free
  -- has been called once for its buffer, or not at all where it never had one. deallocate does not
  -- find the heap corrupted. The sizes stay within 2 ^ 48.
  pub Reach-IsFreed :
      (o : Blocks) (streams : List ℕ) (b : ℕ)
      → Reach o streams
      → (o.uses b ≡ count b streams)
        × (((0 < count b streams) × IsSound (o.buffers b) × (o.frees b ≡ 0))
            ⊎ ((count b streams ≡ 0)
                × ((o.buffers b).bytes ≡ [])
                × (o.frees b ≡ freed_once (o.buffers b))))
        × (o.corrupted ≡ false)
  Reach-IsFreed o streams b history =
      let v = Reach-IsCounted history in
      let k = v.kept b in
      (
        k.counted,
        elim (Bool-cases (count b streams == 0)) [
          | inl none_on ↦
              let none_left = ==→eq (count b streams) 0 none_on in
              let (no_bytes, freed) = k.unowned none_left in inr (none_left, no_bytes, freed)
          | inr some_on ↦
              let some_left = positive (count b streams) some_on in
              let (sound, unfreed) = k.owned some_left in inl (some_left, sound, unfreed)
        ],
        v.intact,
      )
