-- ===== src/Session/EndPoints/Comparing.antt =====
-- Equality of end points, and their texts.
use dklibrary.Common.{
  ℕ, ◌<◌, ◌≡◌, ◌↔◌, refl, subst, ap, arith, Bool, true, ◌&&◌, ◌==◌, List, [], ◌∷◌, ◌++◌,
}
use dklibrary.Calendar.{decimal}
use dklibrary.Calendar.Decimals.{decimal_injective, Without, decimal-Without}
use dklibrary.Session.EndPoints.{EndPoint, same_text, same, to_string}

==-eq : (a b : ℕ) → (a == b) ≡ true → a ≡ b
==-eq a b h = ground arith

==_refl : (a : ℕ) → (a == a) ≡ true
==_refl a = ground arith

both : (a b : Bool) → (a && b) ≡ true → (a ≡ true) × (b ≡ true)
both a b h = ground arith

same_text-eq : (s t : List ℕ) → same_text s t ≡ true → s ≡ t
unfolding same_text
same_text-eq [] [] h = refl
same_text-eq [] (d ∷ t) h = ground arith
same_text-eq (c ∷ s) [] h = ground arith
same_text-eq (c ∷ s) (d ∷ t) h =
    let (head, tail) = both (c == d) (same_text s t) h in
    let eq : c ≡ d = ==-eq c d head in cc (same_text-eq s t tail)

same_text_refl : (s : List ℕ) → same_text s s ≡ true
unfolding same_text
same_text_refl [] = refl
same_text_refl (c ∷ s) = cc (==_refl c, same_text_refl s)

inside : (b x y : List ℕ) → Without 58 x → x ≡ b ++ (58 ∷ y) → ⊥
inside [] [] y p h = ground arith
inside [] (c ∷ x) y (p, ps) h = p cc
inside (d ∷ b) [] y p h = ground arith
inside (d ∷ b) (c ∷ x) y (p, ps) h = inside b x y ps cc

-- The last colon: the texts in front of it and behind it.
split_colon :
    (a b x y : List ℕ)
    → Without 58 x
    → Without 58 y
    → a ++ (58 ∷ x) ≡ b ++ (58 ∷ y)
    → (a ≡ b) × (x ≡ y)
split_colon [] [] x y p q h = (refl, cc)
split_colon [] (d ∷ b) x y p q h = absurd (inside b x y p (cc))
split_colon (c ∷ a) [] x y p q h = absurd (inside a y x q (cc))
split_colon (c ∷ a) (d ∷ b) x y p q h =
    let (front, back) = split_colon a b x y p q (cc) in (cc, back)

-- operator== answers true for equal end points alone, and two end points with the same toString are
-- equal: the text has the address and the port apart, also where the address has colons itself.
pub end_point_lem :
    (e f : EndPoint)
    → e.port < 65536
    → f.port < 65536
    → ((same e f ≡ true) ↔ (e ≡ f)) × ((to_string e ≡ to_string f) ↔ (e ≡ f))
unfolding same to_string
end_point_lem e f h k = (
  (
    (λ answer.
        let (texts, ports) = both _ _ answer in
        equal (same_text-eq e.ip f.ip texts) (==-eq e.port f.port ports)),
    (λ eq. subst (λ g. same e g ≡ true) eq (cc (same_text_refl e.ip, ==_refl e.port))),
  ),
  (
    (λ text.
        let (ips, ports) =
          split_colon e.ip f.ip (decimal e.port) (decimal f.port) (decimal-Without e.port)
            (decimal-Without f.port) text in
        equal ips (decimal_injective e.port f.port (omega arith) (omega arith) ports)),
    ap to_string,
  ),
)
  where
    equal : e.ip ≡ f.ip → e.port ≡ f.port → e ≡ f
    equal ips ports i = record { ip = ips i; port = ports i }
