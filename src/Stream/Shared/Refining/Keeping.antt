-- ===== src/Stream/Shared/Refining/Keeping.antt =====
-- The invariant of shared blocks, and that the change of one stream's block keeps it.
use dklibrary.Common.{ℕ, ◌≤◌, ◌<◌, ◌≡◌, ◌≢◌, ◌⊎◌, inl, inr, sym, ap, subst, ◌∙◌, arith, take}
use dklibrary.StreamBuf.{StreamBuf}
use dklibrary.Stream.{Stream}
use dklibrary.Stream.Valid.{IsValid, contents}
use dklibrary.Stream.Shared.{Handle, World, update, seen, view, put_back}
use dklibrary.Stream.Shared.Views.{
  update_same, update_other, view-put_back, view-put_back_apart, view-put_back_shared, kept_view,
}

-- Every stream is valid, and no stream has a block that is still to be made.
pub record IsSound (w : World) : Type 0 where
  pub valid : (i : ℕ) → IsValid (view i w)
  pub made : (i : ℕ) → (w.objects i).block < w.next

pub same_or_other : (i j : ℕ) → (i ≡ j) ⊎ (i ≢ j)
same_or_other i j = ground arith

pub update_block :
    (objects : ℕ → Handle) (i : ℕ) (h : Handle) (bound : ℕ) (j : ℕ)
    → h.block < bound
    → (objects j).block < bound
    → (update objects i h j).block < bound
update_block objects i h bound j new old = ground arith

-- `t` keeps the first `n` bytes of the block, and no other stream of the block ends behind them.
pub record Keeps (i : ℕ) (w : World) (t : Stream) (n : ℕ) : Type 0 where
  pub valid : IsValid t
  pub room : n ≤ t.buf.size
  pub kept : take n t.buf.bytes ≡ take n (view i w).buf.bytes
  pub within :
      (j : ℕ) → i ≢ j → (w.objects i).block ≡ (w.objects j).block → (w.objects j).written ≤ n

module _ (i : ℕ) (w : World) (t : Stream) (n : ℕ) (sound : IsSound w) (keeps : Keeps i w t n) where
  other_kept :
      (j : ℕ)
      → i ≢ j
      → IsValid (view j (put_back i t w))
        × (contents (view j (put_back i t w)) ≡ contents (view j w))
  other_kept j other = elim (same_or_other (w.objects i).block (w.objects j).block) [
    | inl shared ↦
        let eq = view-put_back_shared i t w j other shared in
        let (valid, same) =
          kept_view (view j w) t.buf n (sound.valid j) keeps.valid.sound
            (keeps.within j other shared) keeps.room
            (keeps.kept ∙ ap (λ b. take n (w.blocks b).bytes) shared) in
        (subst IsValid (sym eq) valid, ap contents eq ∙ same)
    | inr apart ↦
        let eq = view-put_back_apart i t w j other apart in
        (subst IsValid (sym eq) (sound.valid j), ap contents eq)
  ]

  -- The stream becomes `t`, the others keep their readable bytes, and all stay sound.
  pub put_back_lem :
      IsSound (put_back i t w)
      × (contents (view i (put_back i t w)) ≡ contents t)
      × ((j : ℕ) → i ≢ j → contents (view j (put_back i t w)) ≡ contents (view j w))
  put_back_lem =
      let self = view-put_back i t w in
      (
        record {
          valid = λ j. elim (same_or_other i j) [
            | inl same ↦
                subst (λ k. IsValid (view k (put_back i t w))) same
                  (subst IsValid (sym self) keeps.valid)
            | inr other ↦ (other_kept j other).0
          ];
          made = λ j. update_block w.objects i _ w.next j (sound.made i) (sound.made j);
        },
        ap contents self,
        λ j other. (other_kept j other).1,
      )

-- An object at `i` that is made or assigned: what it is bound to, and a map of blocks that agrees
-- with the old one wherever an object points.
module _ (i : ℕ) (h : Handle) (blocks : ℕ → StreamBuf) (next : ℕ) (w : World) (sound : IsSound w)
    (valid : IsValid (seen blocks h)) (older : w.next ≤ next) (made : h.block < next)
    (agrees : (j : ℕ) → blocks (w.objects j).block ≡ w.blocks (w.objects j).block) where
  abbrev pub bound : World
  bound = record { objects = update w.objects i h; blocks = blocks; next = next }

  bound_here : view i bound ≡ seen blocks h
  bound_here = ap (seen blocks) (update_same w.objects i h)

  bound_other : (j : ℕ) → i ≢ j → view j bound ≡ view j w
  bound_other j other =
      ap (seen blocks) (update_other w.objects i j h other)
      ∙ ap (λ b. record (view j w) { buf = b }) (agrees j)

  pub bind_lem :
      IsSound bound
      × (contents (view i bound) ≡ contents (seen blocks h))
      × ((j : ℕ) → i ≢ j → contents (view j bound) ≡ contents (view j w))
  bind_lem = (
    record {
      valid = λ j. elim (same_or_other i j) [
        | inl same ↦ subst (λ k. IsValid (view k bound)) same (subst IsValid (sym bound_here) valid)
        | inr other ↦ subst IsValid (sym (bound_other j other)) (sound.valid j)
      ];
      made = λ j. update_block w.objects i h next j made (omega (arith, sound.made j));
    },
    ap contents bound_here,
    λ j other. ap contents (bound_other j other),
  )
