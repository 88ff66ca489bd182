-- ===== src/FlippableQueue/Draining.antt =====
-- The consumer of an OptimizedFlippableQueueT gets all that has been pushed.
use dklibrary.Common.{
  ℕ, ◌+◌, ◌≡◌, refl, sym, ap, subst, ◌∙◌, arith, List, [], ◌∷◌, ◌++◌, length, append-nil,
}
use dklibrary.FlippableQueue.Interleaving.{
  System, filling, returned, after_take, after_flip, Step, take_front, flip_over, Reach, next,
  filling-take, returned-take, filling-flip, returned-flip, Reach-IsConsistent,
}

module _ {ℓ} {A : Type ℓ} where
  -- So many steps, of the consumer alone: nothing is pushed.
  pub data Consumes : ℕ → System A → System A → Type ℓ where
    rests : {s : System A} → Consumes 0 s s
    steps :
        {n m : ℕ} {s t u : System A}
        → Consumes n s t
        → Step t u
        → u.pushed ≡ t.pushed
        → m ≡ n + 1
        → Consumes m s u

  Consumes-Reach : {n : ℕ} {s t : System A} → Reach s → Consumes n s t → Reach t
  Consumes-Reach r rests = r
  Consumes-Reach r (steps c step same e) = next (Consumes-Reach r c) step

  Consumes-pushed : {n : ℕ} {s t : System A} → Consumes n s t → t.pushed ≡ s.pushed
  Consumes-pushed rests = refl
  Consumes-pushed (steps c step same e) = same ∙ Consumes-pushed c

  -- The returned deque has been emptied, an item at a time.
  record Emptied (n : ℕ) (s t u : System A) : Type ℓ where
    run : Consumes n s u
    none_left : returned u ≡ []
    same_filling : filling u.queue ≡ filling t.queue

  empties :
      (xs : List A) (n m : ℕ) (s t : System A)
      → Reach s
      → Consumes n s t
      → returned t ≡ xs
      → m ≡ n + length xs
      → (u : System A) × Emptied m s t u
  empties [] n m s t r c e count = (
    t,
    record {
      run = subst (λ k. Consumes k s t) (let same : n ≡ m = omega arith in same) c;
      none_left = e;
      same_filling = refl;
    },
  )
  empties (a ∷ xs) n m s t r c e count =
      let good = Reach-IsConsistent (Consumes-Reach r c) in
      let two = good.two_deques in
      let other = good.holds_other in
      let (u, done) =
        empties xs (n + 1) m s (after_take a xs t) r (steps c (take_front a xs e) refl refl)
          (returned-take t two other a xs) (omega arith) in
      (
        u,
        record {
          run = done.run;
          none_left = done.none_left;
          same_filling = done.same_filling ∙ filling-take t two other a xs;
        },
      )

  -- However the threads have been interleaved, where the consumer has flipped only once the deque
  -- that flip returned last was empty, it gets all that has been pushed by its own steps: it takes
  -- what flip returned, flips once, and takes from the deque that this flip returns what has been
  -- filled meanwhile, in the order of the pushes.
  pub Reach-Consumes :
      (s : System A)
      → Reach s
      → (t : System A) × Consumes (length (returned s) + length (filling s.queue) + 1) s t
        × (t.pushed ≡ s.pushed)
        × (t.taken ≡ s.pushed)
  Reach-Consumes s r =
      let n = length (returned s) in
      let (t, first) = empties (returned s) 0 n s s r rests refl (omega arith) in
      let good = Reach-IsConsistent (Consumes-Reach r first.run) in
      let two = good.two_deques in
      let other = good.holds_other in
      let (u, second) =
        empties (filling s.queue) (n + 1) (n + length (filling s.queue) + 1) s (after_flip t) r
          (steps first.run (flip_over first.none_left) refl refl)
          (returned-flip t two other ∙ first.same_filling) (omega arith) in
      let all_taken = (Reach-IsConsistent (Consumes-Reach r second.run)).in_order in
      let none_filled : filling u.queue ≡ [] =
        second.same_filling ∙ filling-flip t two other ∙ first.none_left in
      (
        u,
        second.run,
        Consumes-pushed second.run,
        sym (append-nil u.taken)
            ∙ ap (λ xs. u.taken ++ xs)
                (sym (ap (λ xs. xs ++ filling u.queue) second.none_left ∙ none_filled))
            ∙ sym all_taken
            ∙ Consumes-pushed second.run,
      )
