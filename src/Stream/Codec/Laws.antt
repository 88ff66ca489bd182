-- ===== src/Stream/Codec/Laws.antt =====
-- What makes a pair of << and >> a codec: << appends the wire form of a value, and >> takes exactly
-- that form off the front again.
use dklibrary.Common.{
  ◌>>=◌, ◌>>◌, >>=-returns, ret, refl, ℕ, ◌+◌, ◌≤◌, ◌≡◌, ap, ◌∙◌, arith, List, ◌++◌, length, take,
  drop, M, returns, length-append, append_assoc, take-append_exact, drop-append_exact,
}
use dklibrary.StreamBuf.{max_alloc}
use dklibrary.Stream.{Stream, read_bytes, consume}
use dklibrary.Stream.Valid.{IsValid, contents}
use dklibrary.Stream.Writing.{Appended}
use dklibrary.Stream.Reading.{advanced, advanced-Consumed, read_bytes-enough, consume_lem}
use dklibrary.Stream.Codec.{Codec}

-- The run `r` returns and has appended `values` to `s`.
abbrev pub Puts : M Stream (Unit {0}) → Stream → List ℕ → Type 0
Puts m s values = (t : Stream) × (m s ≡ returns tt t) × Appended s values t

-- The run returns `a` and leaves `rest` to be read.
abbrev pub Gets : {A : Type 0} → M Stream A → Stream → A → List ℕ → Type 0
Gets m s a rest = (t : Stream) × (m s ≡ returns a t) × IsValid t × (contents t ≡ rest)

pub record IsCodec {A : Type 0} (c : Codec A) (P : A → Type 0) (wire : A → List ℕ) : Type 0 where
  pub put_lem :
      (a : A) (s : Stream)
      → P a
      → IsValid s
      → s.written + length (wire a) ≤ max_alloc
      → Puts (c.put a) s (wire a)
  pub get_lem :
      (a : A) (rest : List ℕ) (s : Stream)
      → P a
      → IsValid s
      → contents s ≡ wire a ++ rest
      → Gets c.get s a rest

pub Appended-trans :
    {s t u : Stream} (xs ys : List ℕ) → Appended s xs t → Appended t ys u → Appended s (xs ++ ys) u
Appended-trans {s} xs ys f g = record {
  valid = g.valid;
  appended = g.appended ∙ ap (λ bs. bs ++ ys) f.appended ∙ append_assoc (contents s) xs ys;
  same_read = g.same_read ∙ f.same_read;
  advanced = omega (arith, f.advanced, g.advanced, length-append xs ys);
}

-- A read of as many bytes as a known front has returns that front.
pub read_front :
    (s : Stream) (n : ℕ) (front rest : List ℕ)
    → length front ≡ n
    → IsValid s
    → contents s ≡ front ++ rest
    → Gets (read_bytes n) s front rest
read_front s n front rest len v e =
    let fits : n ≤ length (contents s) = omega (arith, ap length e, length-append front rest) in
    let used = advanced-Consumed s n v fits in
    (
      advanced s n,
      read_bytes-enough s n v fits
          ∙ ap (λ bs. returns bs (advanced s n))
              (ap (take n) e ∙ rw (← len) (take-append_exact front rest)),
      used.valid,
      used.remaining ∙ ap (drop n) e ∙ rw (← len) (drop-append_exact front rest),
    )

pub consume_front :
    (s : Stream) (n : ℕ) (front rest : List ℕ)
    → length front ≡ n
    → IsValid s
    → contents s ≡ front ++ rest
    → Gets (consume n) s tt rest
consume_front s n front rest len v e =
    let fits : n ≤ length (contents s) = omega (arith, ap length e, length-append front rest) in
    let used = advanced-Consumed s n v fits in
    (
      advanced s n,
      consume_lem s n v fits,
      used.valid,
      used.remaining ∙ ap (drop n) e ∙ rw (← len) (drop-append_exact front rest),
    )

-- One << after another, and one >> after another.
pub Puts-then :
    (m k : M Stream (Unit {0})) (s : Stream) (xs ys : List ℕ)
    → Puts m s xs
    → ((t : Stream) → Appended s xs t → Puts k t ys)
    → Puts (m >> k) s (xs ++ ys)
Puts-then m k s xs ys (t, ran, f) next =
    let (u, ran', g) = next t f in
    (u, >>=-returns m (λ _. k) s ran ∙ ran', Appended-trans xs ys f g)

pub Gets-then :
    {A B : Type 0} (m : M Stream A) (f : A → M Stream B) (s : Stream) (a : A) (rest : List ℕ)
    (b : B) (rest' : List ℕ)
    → Gets m s a rest
    → ((t : Stream) → IsValid t → contents t ≡ rest → Gets (f a) t b rest')
    → Gets (m >>= f) s b rest'
Gets-then m f s a rest b rest' (t, ran, valid, left) next =
    let (u, ran', valid', left') = next t valid left in
    (u, >>=-returns m f s ran ∙ ran', valid', left')

pub Gets-ret :
    {A : Type 0} (a : A) (s : Stream) (rest : List ℕ)
    → IsValid s
    → contents s ≡ rest
    → Gets (ret a) s a rest
Gets-ret a s rest v e = (s, refl, v, e)
