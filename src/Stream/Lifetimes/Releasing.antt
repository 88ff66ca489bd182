-- ===== src/Stream/Lifetimes/Releasing.antt =====
-- ~StreamBuf() of LibraryBase/StreamBuf.h, and a shared_ptr that goes.
use dklibrary.Common.{
  ℕ, ◌+◌, ◌-◌, ◌≤◌, ◌<◌, ◌≡◌, refl, sym, ap, ◌∙◌, arith, ◌==◌, if◌then◌else◌, true, false, List, [],
  ◌∷◌, length, Bool-cases, inl, inr, ==→eq, lt→ltb, ge→ltb, ltb,
}
use dklibrary.StreamBuf.{StreamBuf, deallocate, is_null}
use dklibrary.StreamBuf.Growth.{IsSound}
use dklibrary.Stream.Shared.{update}
use dklibrary.Stream.Lifetimes.{Blocks, destroy_block, release}
use dklibrary.Stream.Lifetimes.Counting.{
  at, count, freed_once, IsKept, IsCounted, update_self, update_other, at_self, at_other,
  same_block, at_each,
}

pub positive : (n : ℕ) → (n == 0) ≡ false → 0 < n
positive n h = ground arith

-- A whole block is freed where it has a buffer, and nothing is logged.
deallocate_lem :
    (buf : StreamBuf)
    → IsSound buf
    → ((deallocate buf).corrupted ≡ false)
      × ((deallocate buf).left.bytes ≡ [])
      × ((if (deallocate buf).freed then 1 else 0) ≡ freed_once (deallocate buf).left)
unfolding deallocate
deallocate_lem buf sound = elim (Bool-cases (buf.size == 0)) [
  | inl none_there ↦
      let empty : buf.size ≡ 0 = ==→eq buf.size 0 none_there in
      let no_bytes : buf.bytes ≡ [] = no_items buf.bytes (sound.block ∙ empty) in
      let nothing : ltb 0 buf.size ≡ false = ge→ltb 0 buf.size (omega arith) in
      rw (none_there, no_bytes, nothing) (refl, refl, rw nothing refl)
  | inr there ↦
      let null : is_null buf ≡ false = rw sound.block there in
      let some_there : ltb 0 buf.size ≡ true = lt→ltb 0 buf.size (positive buf.size there) in
      rw (there, null, some_there) (refl, refl, rw some_there refl)
]
  where
    no_items : (bytes : List ℕ) → length bytes ≡ 0 → bytes ≡ []
    no_items [] h = refl
    no_items (c ∷ bytes) h = absurd (omega arith)

module _ (o : Blocks) (streams remaining : List ℕ) (b : ℕ) (v : IsCounted o streams)
    (there : 0 < count b streams)
    (gone : (c : ℕ) → count c streams ≡ at b c + count c remaining) where
  abbrev fewer : Blocks
  fewer = record o { uses = update o.uses b (o.uses b - 1) }

  still : (fewer.uses b ≡ count b remaining)
  still = omega (arith, update_self o.uses b (o.uses b - 1), (v.kept b).counted, gone b, at_self b)

  made_before : o.next ≤ b → ⊥
  made_before h = let (none_on, _) = (v.kept b).unmade h in omega (arith, none_on)

  others_left : 0 < count b remaining → IsCounted fewer remaining
  others_left some_left = record {
    kept =
        at_each (IsKept fewer remaining) b
          (record {
            counted = still;
            unmade = λ h. absurd (made_before h);
            owned = λ h. (v.kept b).owned there;
            unowned = λ h. absurd (omega arith);
          })
          (λ c other.
            same_block o fewer streams remaining c (update_other o.uses b (o.uses b - 1) c other)
              refl refl (omega arith) (omega (arith, gone c, at_other b c other)) (v.kept c));
    intact = v.intact;
  }

  last_gone : count b remaining ≡ 0 → IsCounted (destroy_block b fewer) remaining
  unfolding destroy_block
  last_gone none_left =
      let o' = destroy_block b fewer in
      let d = deallocate (o.buffers b) in
      let (sound, unfreed) = (v.kept b).owned there in
      let (fine, emptied, done) = deallocate_lem (o.buffers b) sound in
      let more = o.frees b + (if d.freed then 1 else 0) in
      let sum : more ≡ (if d.freed then 1 else 0) = omega (arith, unfreed) in
      record {
        kept =
            at_each (IsKept o' remaining) b
              (record {
                counted = still;
                unmade = λ h. absurd (made_before h);
                owned = λ h. absurd (omega (arith, none_left));
                unowned = λ h. (
                  ap (λ buf. buf.bytes) (update_self o.buffers b d.left) ∙ emptied,
                  update_self o.frees b more
                      ∙ sum
                      ∙ done
                      ∙ ap freed_once (sym (update_self o.buffers b d.left)),
                );
              })
              (λ c other.
                same_block o o' streams remaining c (update_other o.uses b (o.uses b - 1) c other)
                  (update_other o.buffers b d.left c other) (update_other o.frees b more c other)
                  (omega arith) (omega (arith, gone c, at_other b c other)) (v.kept c));
        intact = rw (v.intact, fine) refl;
      }

  pub release-IsCounted : IsCounted (release b o) remaining
  unfolding release
  release-IsCounted = elim (Bool-cases (fewer.uses b == 0)) [
    | inl last ↦ rw last (last_gone (omega (arith, still, ==→eq (fewer.uses b) 0 last)))
    | inr others ↦ rw others (others_left (positive (count b remaining) (rw (← still) others)))
  ]
