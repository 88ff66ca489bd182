-- ===== src/Tests/Interleaving.antt =====
-- LibraryBase/OptimizedFlippableQueue.h.
use dklibrary.Common.{ℕ, ◌≡◌, refl, [], ◌∷◌}
use dklibrary.FlippableQueue.{push, flip}
use dklibrary.FlippableQueue.Draining.{Consumes, Reach-Consumes}
use dklibrary.FlippableQueue.Interleaving.{
  System, Reach, produce, take_front, flip_over, initially, next, IsConsistent, Reach-IsConsistent,
}

-- Two items are pushed, the queue is flipped, and one of them is taken.
abbrev busy : System ℕ
busy = record {
  queue = record { pos = 1; queue0 = 8 ∷ []; queue1 = [] };
  held = 0;
  pushed = 7 ∷ 8 ∷ [];
  taken = 7 ∷ [];
}

busy-Reach : Reach busy
unfolding push flip
busy-Reach =
    next (next (next (next initially (produce 7)) (produce 8)) (flip_over refl))
      (take_front 7 (8 ∷ []) refl)

Reach-IsConsistent_example : IsConsistent busy
Reach-IsConsistent_example = Reach-IsConsistent busy-Reach

-- A third item is pushed meanwhile.
abbrev busier : System ℕ
busier = record {
  queue = record { pos = 1; queue0 = 8 ∷ []; queue1 = 9 ∷ [] };
  held = 0;
  pushed = 7 ∷ 8 ∷ 9 ∷ [];
  taken = 7 ∷ [];
}

busier-Reach : Reach busier
unfolding push
busier-Reach = next busy-Reach (produce 9)

Reach-Consumes_example :
    (t : System ℕ) × Consumes 3 busier t × (t.pushed ≡ 7 ∷ 8 ∷ 9 ∷ []) × (t.taken ≡ 7 ∷ 8 ∷ 9 ∷ [])
Reach-Consumes_example = Reach-Consumes busier busier-Reach
