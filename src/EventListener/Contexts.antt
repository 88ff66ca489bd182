-- ===== src/EventListener/Contexts.antt =====
-- The contexts take turns.
use dklibrary.Common.{
  ℕ, suc, ◌+◌, ◌-◌, ◌*◌, ◌/◌, ◌%◌, ◌^◌, ◌≤◌, ◌<◌, ◌≡◌, ◌≢◌, ◌∙◌, arith, length, returns, Bool-cases,
  leb, leb→le, leb→gt, inl, inr, subst,
}
use native.Mathlib.Nat.{div-add-mod, mod-lt, mul-le-mul_left, mul-add}
use dklibrary.Common.Word.{add64, add64-eq}
use dklibrary.EventListener.{AsyncListener, next_context}

-- The counter after `n` more calls.
abbrev pub later : ℕ → AsyncListener → AsyncListener
later n l = record l { pos = l.pos + n }

next_context-later :
    (l : AsyncListener) (n size : ℕ)
    → length l.contexts ≡ suc size
    → l.pos + n + 1 < 2 ^ 64
    → next_context (later n l) ≡ returns ((l.pos + n) % suc size) (later (n + 1) l)
unfolding next_context
next_context-later l n size len h =
    let counted : add64 (l.pos + n) 1 ≡ l.pos + (n + 1) = add64-eq (l.pos + n) 1 h ∙ omega arith in
    rw (next_context, len, counted)

no_multiple_between : (m q q' d : ℕ) → 0 < d → d < m → m * q' ≢ m * q + d
no_multiple_between m q q' d h k same = elim (Bool-cases (leb q' q)) [
  | inl less ↦ absurd (omega (arith, mul-le-mul_left m (leb→le q' q less)))
  | inr more ↦
      let next : q + 1 ≤ q' = omega (arith, leb→gt q' q more) in
      absurd (omega (arith, mul-le-mul_left m next, mul-add m q 1))
]

-- Within one round no remainder comes twice.
distinct_remainders : (a d n : ℕ) → 0 < d → d < suc n → a % suc n ≢ (a + d) % suc n
distinct_remainders a d n h k same =
    no_multiple_between (suc n) (a / suc n) ((a + d) / suc n) d h k
      (omega (arith, div-add-mod a (suc n), div-add-mod (a + d) (suc n)))

-- The contexts take turns: of any as many consecutive calls of getContext as there are contexts, each
-- gives a context that there is, and no two give the same one; as long as the counter does not pass
-- 2 ^ 64. `j` and `k` are the numbers of the two calls.
pub next_context-turns :
    (l : AsyncListener) (j k size : ℕ)
    → length l.contexts ≡ suc size
    → j < k
    → k < j + suc size
    → l.pos + k + 1 < 2 ^ 64
    → (i i' : ℕ) × (next_context (later j l) ≡ returns i (later (j + 1) l))
      × (next_context (later k l) ≡ returns i' (later (k + 1) l))
      × (i < suc size)
      × (i' < suc size)
      × (i ≢ i')
next_context-turns l j k size len order near bound =
    let apart = distinct_remainders (l.pos + j) (k - j) size (omega arith) (omega arith) in
    let shifted : l.pos + j + (k - j) ≡ l.pos + k = omega arith in
    (
      (l.pos + j) % suc size,
      (l.pos + k) % suc size,
      next_context-later l j size len (omega arith),
      next_context-later l k size len bound,
      mod-lt (l.pos + j) (omega arith),
      mod-lt (l.pos + k) (omega arith),
      subst (λ b. (l.pos + j) % suc size ≢ b % suc size) shifted apart,
    )
