-- ===== src/EventListener/Handlers.antt =====
-- The map of handlers against a function from the numbers.
use dklibrary.Common.{
  ℕ, ◌≡◌, refl, sym, ap, subst, ◌∙◌, arith, ◌==◌, if◌then◌else◌, Bool, true, false, Option, List,
  [], ◌∷◌, none, some,
}
use dklibrary.EventListener.{
  Handler, Entry, find, erase, assign, add_message_handler, remove_message_handler, message_handler,
}

-- A call on the map.
pub data Op (H : Type 0) : Type 0 where
  add : Handler H → Op H
  remove : ℕ → Op H

module _ {H : Type 0} where
  find-assign :
      (number k : ℕ) (h : Handler H) (handlers : List (Entry H))
      → find k (assign number h handlers) ≡ (if number == k then some h else find k handlers)
  unfolding find assign
  find-assign number k h [] = refl
  find-assign number k h (e ∷ handlers) = ground (arith, find-assign number k h handlers)

  find-erase :
      (number k : ℕ) (handlers : List (Entry H))
      → find k (erase number handlers) ≡ (if number == k then none else find k handlers)
  unfolding find erase
  find-erase number k [] = ground arith
  find-erase number k (e ∷ handlers) = ground (arith, find-erase number k handlers)

  -- What a call makes of the map, and what it is to make of a function from the numbers.
  abbrev pub apply : Op H → List (Entry H) → List (Entry H)
  apply (add h) handlers = add_message_handler h handlers
  apply (remove number) handlers = remove_message_handler number handlers

  abbrev pub spec : Op H → (ℕ → Option (Handler H)) → ℕ → Option (Handler H)
  spec (add h) found k = if h.message_no == k then some h else found k
  spec (remove number) found k = if number == k then none else found k

  abbrev pub apply_all : List (Op H) → List (Entry H) → List (Entry H)
  apply_all [] handlers = handlers
  apply_all (op ∷ ops) handlers = apply_all ops (apply op handlers)

  abbrev pub spec_all : List (Op H) → (ℕ → Option (Handler H)) → ℕ → Option (Handler H)
  spec_all [] found = found
  spec_all (op ∷ ops) found = spec_all ops (spec op found)

  abbrev pub is_some : Option (Handler H) → Bool
  is_some none = false
  is_some (some h) = true

  -- The handler, if there is one, is of the number.
  abbrev pub IsOf : ℕ → Option (Handler H) → Type 0
  IsOf k none = Unit
  IsOf k (some h) = h.message_no ≡ k

  pub find-apply :
      (op : Op H) (handlers : List (Entry H)) (k : ℕ)
      → find k (apply op handlers) ≡ spec op (λ j. find j handlers) k
  unfolding add_message_handler remove_message_handler
  find-apply (add h) handlers k = find-assign h.message_no k h handlers
  find-apply (remove number) handlers k = find-erase number k handlers

  find-apply_all :
      (ops : List (Op H)) (handlers : List (Entry H)) (k : ℕ)
      → find k (apply_all ops handlers) ≡ spec_all ops (λ j. find j handlers) k
  find-apply_all [] handlers k = refl
  find-apply_all (op ∷ ops) handlers k =
      let same : (λ j. find j (apply op handlers)) ≡ spec op (λ j. find j handlers) =
        λ i j. find-apply op handlers j i in
      find-apply_all ops (apply op handlers) k ∙ ap (λ found. spec_all ops found k) same

  set-IsOf :
      (h : Handler H) (found : ℕ → Option (Handler H))
      → ((k : ℕ) → IsOf k (found k))
      → (k : ℕ) → IsOf k (if h.message_no == k then some h else found k)
  set-IsOf h found kept k = go (h.message_no == k) refl
    where
      go : (b : Bool) → (h.message_no == k) ≡ b → IsOf k (if b then some h else found k)
      go true e = ground arith
      go false e = kept k

  spec-IsOf :
      (op : Op H) (found : ℕ → Option (Handler H))
      → ((k : ℕ) → IsOf k (found k))
      → (k : ℕ) → IsOf k (spec op found k)
  spec-IsOf (add h) found kept k = set-IsOf h found kept k
  spec-IsOf (remove number) found kept k = go (number == k)
    where
      go : (b : Bool) → IsOf k (if b then none else found k)
      go true = tt
      go false = kept k

  spec_all-IsOf :
      (ops : List (Op H)) (found : ℕ → Option (Handler H))
      → ((k : ℕ) → IsOf k (found k))
      → (k : ℕ) → IsOf k (spec_all ops found k)
  spec_all-IsOf [] found kept k = kept k
  spec_all-IsOf (op ∷ ops) found kept k =
      spec_all-IsOf ops (spec op found) (spec-IsOf op found kept) k

  -- After any history of addMessageHandler and removeMessageHandler, find gives under each number
  -- what a function from the numbers would have, that the calls change at one number each;
  -- messageHandler tells whether there is one, and a handler that is found has the number.
  pub handlers_lem :
      (ops : List (Op H)) (k : ℕ)
      → (find k (apply_all ops []) ≡ spec_all ops (λ _. none) k)
        × (message_handler k (apply_all ops []) ≡ is_some (spec_all ops (λ _. none) k))
        × IsOf k (find k (apply_all ops []))
  unfolding message_handler
  handlers_lem ops k =
      let found : find k (apply_all ops []) ≡ spec_all ops (λ _. none) k =
        find-apply_all ops [] k in
      (
        found,
        ap is_some found,
        subst (IsOf k) (sym found) (spec_all-IsOf ops (λ _. none) (λ _. tt) k),
      )
