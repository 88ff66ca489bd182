-- ===== src/FlippableQueue/Interleaving.antt =====
-- Producers and the consumer of an OptimizedFlippableQueueT in any order of their steps. The consumer
-- empties the deque that flip has returned before it flips again, as the users of flip have to.
use dklibrary.Common.{
  ℕ, ◌≡◌, ◌⊎◌, refl, sym, ap, ◌∙◌, arith, inl, List, [], ◌∷◌, ◌++◌, append_assoc, append-nil,
}
use dklibrary.FlippableQueue.{FlippableQueue, create, queue_at, set_queue_at, negate, push, flip}

-- The queue, the index of the deque that the last flip returned, and all that has been pushed and
-- all that the consumer has taken, oldest first. Before the first flip the consumer holds the deque
-- that is not being filled, which is empty.
pub record System {ℓ} (A : Type ℓ) : Type ℓ where
  pub queue : FlippableQueue A
  pub held : ℕ
  pub pushed : List A
  pub taken : List A

module _ {ℓ} {A : Type ℓ} where
  -- The deque that producers fill, and the one that the last flip returned.
  abbrev pub filling : FlippableQueue A → List A
  filling q = queue_at q.pos q

  abbrev pub returned : System A → List A
  returned s = queue_at s.held s.queue

  abbrev pub start_system : System A
  start_system = record { queue = create; held = 1; pushed = []; taken = [] }

  -- A step of a producer, and the two of the consumer: on the deque that it holds, and flip.
  abbrev pub after_push : A → System A → System A
  after_push a s = record s { queue = push a s.queue; pushed = s.pushed ++ (a ∷ []) }

  abbrev pub after_take : A → List A → System A → System A
  after_take a rest s = record s {
    queue = set_queue_at s.held rest s.queue;
    taken = s.taken ++ (a ∷ []);
  }

  abbrev pub after_flip : System A → System A
  after_flip s = let flipped = flip s.queue in record s { queue = flipped.0; held = flipped.1 }

  pub data Step (s : System A) : System A → Type ℓ where
    produce : (a : A) → Step s (after_push a s)
    take_front : (a : A) (rest : List A) → returned s ≡ a ∷ rest → Step s (after_take a rest s)
    flip_over : returned s ≡ [] → Step s (after_flip s)

  pub data Reach : System A → Type ℓ where
    initially : Reach start_system
    next : {s t : System A} → Reach s → Step s t → Reach t

  pub record IsConsistent (s : System A) : Type ℓ where
    pub two_deques : (s.queue.pos ≡ 0) ⊎ (s.queue.pos ≡ 1)
    pub holds_other : s.held ≡ negate s.queue.pos
    pub in_order : s.pushed ≡ s.taken ++ (returned s ++ filling s.queue)

  -- What each operation does to the two deques.
  module _ (s : System A) (two : (s.queue.pos ≡ 0) ⊎ (s.queue.pos ≡ 1))
      (other : s.held ≡ negate s.queue.pos) where
    filling-push : (a : A) → filling (push a s.queue) ≡ filling s.queue ++ (a ∷ [])
    unfolding push
    filling-push a = ground arith

    returned-push : (a : A) → returned (after_push a s) ≡ returned s
    unfolding push
    returned-push a = ground arith

    pub filling-take :
        (a : A) (rest : List A) → filling (after_take a rest s).queue ≡ filling s.queue
    filling-take a rest = ground arith

    pub returned-take : (a : A) (rest : List A) → returned (after_take a rest s) ≡ rest
    returned-take a rest = ground arith

    pub filling-flip : filling (after_flip s).queue ≡ returned s
    unfolding flip
    filling-flip = ground arith

    pub returned-flip : returned (after_flip s) ≡ filling s.queue
    unfolding flip
    returned-flip = ground arith

  produce-IsConsistent : (s : System A) (a : A) → IsConsistent s → IsConsistent (after_push a s)
  unfolding push
  produce-IsConsistent s a c =
      let two = c.two_deques in
      let other = c.holds_other in
      record {
        two_deques = ground arith;
        holds_other = ground arith;
        in_order =
            ap (λ xs. xs ++ (a ∷ [])) c.in_order
            ∙ append_assoc s.taken (returned s ++ filling s.queue) (a ∷ [])
            ∙ ap (λ xs. s.taken ++ xs)
                (append_assoc (returned s) (filling s.queue) (a ∷ [])
                  ∙ rw (returned-push s two other a, filling-push s two other a));
      }

  take-IsConsistent :
      (s : System A) (a : A) (rest : List A)
      → returned s ≡ a ∷ rest
      → IsConsistent s
      → IsConsistent (after_take a rest s)
  take-IsConsistent s a rest e c =
      let two = c.two_deques in
      let other = c.holds_other in
      record {
        two_deques = ground arith;
        holds_other = ground arith;
        in_order =
            c.in_order
            ∙ ap (λ xs. s.taken ++ (xs ++ filling s.queue)) e
            ∙ sym (append_assoc s.taken (a ∷ []) (rest ++ filling s.queue))
            ∙ rw (returned-take s two other a rest, filling-take s two other a rest);
      }

  flip-IsConsistent :
      (s : System A) → returned s ≡ [] → IsConsistent s → IsConsistent (after_flip s)
  unfolding flip
  flip-IsConsistent s e c =
      let two = c.two_deques in
      let other = c.holds_other in
      record {
        two_deques = ground arith;
        holds_other = ground arith;
        in_order =
            c.in_order
            ∙ ap (λ xs. s.taken ++ (xs ++ filling s.queue)) e
            ∙ ap (λ xs. s.taken ++ xs)
                (sym (append-nil (filling s.queue))
                  ∙ rw (returned-flip s two other, filling-flip s two other, e));
      }

  Step-IsConsistent : {s t : System A} → Step s t → IsConsistent s → IsConsistent t
  Step-IsConsistent {s} (produce a) c = produce-IsConsistent s a c
  Step-IsConsistent {s} (take_front a rest e) c = take-IsConsistent s a rest e c
  Step-IsConsistent {s} (flip_over e) c = flip-IsConsistent s e c

  -- After any interleaving of the threads, of which the consumer takes from the deque that flip
  -- returned last and flips again only once that is empty, the consumer has taken the pushed items in
  -- the order of the pushes, with none lost, doubled or swapped: the others are still in the deque
  -- that flip returned last and, behind those, in the one that is being filled, and these two are not
  -- one.
  pub Reach-IsConsistent : {s : System A} → Reach s → IsConsistent s
  Reach-IsConsistent initially = record {
    two_deques = inl refl;
    holds_other = refl;
    in_order = refl;
  }
  Reach-IsConsistent (next r step) = Step-IsConsistent step (Reach-IsConsistent r)
