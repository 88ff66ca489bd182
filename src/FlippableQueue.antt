-- ===== src/FlippableQueue.antt =====
-- LibraryBase/OptimizedFlippableQueue.h: two deques, of which producers fill one while the consumer
-- empties the other. push and flip hold the lock, so each is one step; the steps of the threads
-- interleave as `Step` says. flip returns a reference to the deque that the consumer may now empty.
pub mod Interleaving
pub mod Draining
use dklibrary.Common.{ℕ, ◌==◌, if◌then◌else◌, Bool, true, false, List, [], ◌∷◌, ◌++◌}

-- `!m_pos`
abbrev pub negate : ℕ → ℕ
negate i = if i == 0 then 1 else 0

module _ {ℓ} (A : Type ℓ) where
  pub record FlippableQueue : Type ℓ where
    pub pos : ℕ
    pub queue0 : List A
    pub queue1 : List A

module _ {ℓ} {A : Type ℓ} where
  abbrev pub create : FlippableQueue A
  create = record { pos = 0; queue0 = []; queue1 = [] }

  -- m_queues[i]; the index is 0 or 1.
  abbrev pub queue_at : ℕ → FlippableQueue A → List A
  queue_at i q = if i == 0 then q.queue0 else q.queue1

  abbrev pub set_queue_at : ℕ → List A → FlippableQueue A → FlippableQueue A
  set_queue_at i xs q = if i == 0 then record q { queue0 = xs } else record q { queue1 = xs }

  abbrev pub none_in : List A → Bool
  none_in [] = true
  none_in (x ∷ xs) = false

  -- pushWeak, and push
  unfoldable pub push : A → FlippableQueue A → FlippableQueue A
  push a q = set_queue_at q.pos (queue_at q.pos q ++ (a ∷ [])) q

  -- flipWeak, and flip: the queue afterwards, and the index of the deque that is returned.
  unfoldable pub flip : FlippableQueue A → FlippableQueue A × ℕ
  flip q = let pos = negate q.pos in (record q { pos = pos }, negate pos)

  unfoldable pub is_empty : FlippableQueue A → Bool
  is_empty q = none_in (queue_at q.pos q)
