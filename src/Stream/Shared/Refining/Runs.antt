-- ===== src/Stream/Shared/Refining/Runs.antt =====
-- Programs of operations on shared streams.
use dklibrary.Common.{
  ℕ, ◌≡◌, refl, ap, subst, ◌>>=◌, ◌∙◌, List, [], ◌∷◌, M, Outcome, returns, throws, ret, >>=-returns,
}
use dklibrary.StreamBuf.{Memory}
use dklibrary.Stream.Valid.{contents}
use dklibrary.Stream.Shared.{World, view}
use dklibrary.Stream.Shared.Refining.Keeping.{IsSound}
use dklibrary.Stream.Shared.Refining.Steps.{
  Op, spec, answer, Allowed, all_contents, exec, exec-Refines,
}

-- What a program is to a caller that thinks nothing is shared.
abbrev pub spec_all : List Op → (ℕ → List ℕ) → ℕ → List ℕ
spec_all [] c = c
spec_all (op ∷ ops) c = spec_all ops (spec op c)

abbrev pub answers : List Op → (ℕ → List ℕ) → List (List ℕ)
answers [] c = []
answers (op ∷ ops) c = answer op c ∷ answers ops (spec op c)

abbrev pub world_after : {A : Type 0} → Outcome World A → World
world_after (returns a w) = w
world_after (throws e w) = w

module _ ⦃memory : Memory⦄ where
  unfoldable pub exec_all : List Op → M World (List (List ℕ))
  exec_all [] = ret []
  exec_all (op ∷ ops) = do bytes ← exec op; others ← exec_all ops; ret (bytes ∷ others)

  -- Each operation keeps to the discipline in the world that it finds.
  abbrev pub AllAllowed : List Op → World → Type 0
  AllAllowed [] w = Unit
  AllAllowed (op ∷ ops) w = Allowed op w × AllAllowed ops (world_after (exec op w))

  -- A program on streams that share blocks succeeds, and nothing that it reads, and no stream
  -- afterwards, shows that anything is shared: each read returns the bytes, and each stream has the
  -- bytes to be read, that there would be if each stream had a block of its own; where each write is
  -- through a stream that reaches the last byte of its block and stays within the bound, and each
  -- read finds its bytes.
  pub exec_all-Refines :
      (ops : List Op) (w : World)
      → IsSound w
      → AllAllowed ops w
      → (w' : World) × (exec_all ops w ≡ returns (answers ops (all_contents w)) w')
        × IsSound w'
        × ((k : ℕ) → contents (view k w') ≡ spec_all ops (all_contents w) k)
  unfolding exec_all
  exec_all-Refines [] w sound _ = (w, refl, sound, λ k. refl)
  exec_all-Refines (op ∷ ops) w sound (allowed, later) =
      let (w1, (ran, sound1, matches)) = exec-Refines op w sound allowed in
      let seen : all_contents w1 ≡ spec op (all_contents w) = λ i k. matches k i in
      let (w', ran', sound', matches') =
        exec_all-Refines ops w1 sound1 (subst (λ o. AllAllowed ops (world_after o)) ran later) in
      (
        w',
        >>=-returns (exec op) (λ bytes. exec_all ops >>= λ others. ret (bytes ∷ others)) w ran
            ∙ >>=-returns (exec_all ops) (λ others. ret (answer op (all_contents w) ∷ others)) w1
                ran'
            ∙ ap (λ c. returns (answer op (all_contents w) ∷ answers ops c) w') seen,
        sound',
        λ k. matches' k ∙ ap (λ c. spec_all ops c k) seen,
      )
