-- ===== src/Singleton/Lifetime.antt =====
-- The objects of a singleton class over their lives.
use dklibrary.Common.{
  ℕ, ◌≡◌, ◌≢◌, ◌⊎◌, refl, sym, ap, ◌∙◌, inl, inr, arith, List, [], ◌∷◌, ◌++◌, Option, none, some,
  returns, throws, assertion, none-some,
}
use dklibrary.Singleton.{Instance, no_instance, construct, destruct, get_instance}

-- The pointer, with the objects that have been made and not destroyed.
pub record Program : Type 0 where
  pub singleton : Instance
  pub alive : List ℕ

abbrev pub start_program : Program
start_program = record { singleton = no_instance; alive = [] }

-- An object is made, or any object that is alive is destroyed; a failed assertion ends the program.
pub data Step (p : Program) : Program → Type 0 where
  make :
      (this : ℕ) (singleton : Option ℕ)
      → construct this p.singleton ≡ returns tt singleton
      → Step p (record { singleton = singleton; alive = this ∷ p.alive })
  destroy :
      (this : ℕ) (before behind : List ℕ) (singleton : Option ℕ)
      → p.alive ≡ before ++ (this ∷ behind)
      → destruct p.singleton ≡ returns tt singleton
      → Step p (record { singleton = singleton; alive = before ++ behind })

pub data Reach : Program → Type 0 where
  initially : Reach start_program
  next : {p q : Program} → Reach p → Step p q → Reach q

-- No object and no pointer, or one object, which the pointer names; with what a constructor, a
-- destructor and GetInstance do then.
pub data IsSingle (p : Program) : Type 0 where
  without :
      p.alive ≡ []
      → get_instance p.singleton ≡ throws assertion none
      → ((other : ℕ) → construct other p.singleton ≡ returns tt (some other))
      → IsSingle p
  with_one :
      (this : ℕ)
      → p.alive ≡ this ∷ []
      → get_instance p.singleton ≡ returns this (some this)
      → ((other : ℕ) → construct other p.singleton ≡ throws assertion (some this))
      → destruct p.singleton ≡ returns tt none
      → IsSingle p

holds_none : (p : Program) → p.singleton ≡ none → p.alive ≡ [] → IsSingle p
unfolding get_instance construct
holds_none p pointer alive = without alive (ap get_instance pointer) (λ o. ap (construct o) pointer)

holds_one : (p : Program) (this : ℕ) → p.singleton ≡ some this → p.alive ≡ this ∷ [] → IsSingle p
unfolding get_instance construct destruct
holds_one p this pointer alive =
    with_one this alive (ap get_instance pointer) (λ o. ap (construct o) pointer)
      (ap destruct pointer)

abbrev Held : Program → Type 0
Held p =
    ((p.singleton ≡ none) × (p.alive ≡ []))
    ⊎ ((this : ℕ) × (p.singleton ≡ some this) × (p.alive ≡ this ∷ []))

construct-none :
    (this : ℕ) (p q : Option ℕ) → construct this p ≡ returns tt q → (p ≡ none) × (q ≡ some this)
unfolding construct
construct-none this none q h = ground arith
construct-none this (some other) q h = ground arith

destruct-some : (p q : Option ℕ) → destruct p ≡ returns tt q → (p ≢ none) × (q ≡ none)
unfolding destruct
destruct-some none q h = ground arith
destruct-some (some other) q h = ground arith

alone : (x y : ℕ) (before behind : List ℕ) → x ∷ [] ≡ before ++ (y ∷ behind) → before ++ behind ≡ []
alone x y [] [] h = refl
alone x y [] (z ∷ behind) h = ground arith
alone x y (z ∷ []) behind h = ground arith
alone x y (z ∷ (w ∷ before)) behind h = ground arith

Step-Held : {p q : Program} → Held p → Step p q → Held q
Step-Held {p} (inl (pointer, none_alive)) (make this singleton made) =
    let (_, now) = construct-none this p.singleton singleton made in
    inr (this, now, ap (λ objects. this ∷ objects) none_alive)
Step-Held {p} (inr (object, pointer, one)) (make this singleton made) =
    absurd (none-some object (sym (construct-none this p.singleton singleton made).0 ∙ pointer))
Step-Held {p} (inl (pointer, none_alive)) (destroy this before behind singleton alive gone) =
    absurd ((destruct-some p.singleton singleton gone).0 pointer)
Step-Held {p} (inr (object, pointer, one)) (destroy this before behind singleton alive gone) = inl (
  (destruct-some p.singleton singleton gone).1,
  alone object this before behind (sym one ∙ alive),
)

Reach-Held : {p : Program} → Reach p → Held p
Reach-Held initially = inl (refl, refl)
Reach-Held (next r step) = Step-Held (Reach-Held r) step

-- At every point of a program at most one object of the class is alive. While there is none,
-- GetInstance fails its assertion and a constructor succeeds; while there is one, GetInstance gives
-- it, every other constructor fails its assertion, and its destructor clears the pointer.
pub Reach-IsSingle : {p : Program} → Reach p → IsSingle p
Reach-IsSingle {p} r = elim (Reach-Held r) [
  | inl (pointer, alive) ↦ holds_none p pointer alive
  | inr (this, pointer, alive) ↦ holds_one p this pointer alive
]
