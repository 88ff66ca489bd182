-- ===== src/Stream/Shared/Refining/Steps.antt =====
-- The operations on shared streams, and what they are to a caller that thinks nothing is shared.
use dklibrary.Common.{
  ℕ, ◌+◌, ◌≤◌, ◌≡◌, ◌≢◌, inl, inr, refl, sym, ap, subst, ◌∙◌, arith, List, [], ◌++◌, length, take,
  drop, M, returns, ret, ◌>>◌, >>=-returns, ◌<◌,
}
use dklibrary.StreamBuf.{Memory, max_alloc, create}
use dklibrary.Stream.{Stream, write, read_bytes}
use dklibrary.Stream.Valid.{IsValid, contents, create_stream-IsValid}
use dklibrary.Stream.Writing.{write-Grown, filled, filled_kept, store-Appended}
use dklibrary.Stream.Reading.{advanced, read_bytes-enough, advanced-Consumed}
use dklibrary.Stream.Shared.{
  Handle, World, update, view, put_back, settle, call, copy_construct, copy_assign, construct,
}
use dklibrary.Stream.Shared.Views.{update_same, update_other}
use dklibrary.Stream.Shared.Refining.Keeping.{IsSound, Keeps, put_back_lem, bind_lem, same_or_other}

-- An operation on the stream objects, by their addresses.
pub data Op : Type 0 where
  make : ℕ → ℕ → Op
  copy : ℕ → ℕ → Op
  assign : ℕ → ℕ → Op
  write_to : ℕ → List ℕ → Op
  read_from : ℕ → ℕ → Op

-- What it does to the bytes that each stream has to be read.
abbrev pub spec : Op → (ℕ → List ℕ) → ℕ → List ℕ
spec (make i size) c = update c i []
spec (copy i j) c = update c i (c j)
spec (assign i j) c = update c i (c j)
spec (write_to i values) c = update c i (c i ++ values)
spec (read_from i n) c = update c i (drop n (c i))

-- The bytes that it returns.
abbrev pub answer : Op → (ℕ → List ℕ) → List ℕ
answer (read_from i n) c = take n (c i)
answer _ c = []

-- The discipline: nobody writes to a block but through a stream that reaches its last byte, nobody
-- reads more than there is, and no block passes the bound.
abbrev pub Allowed : Op → World → Type 0
Allowed (make i size) w = size ≤ max_alloc
Allowed (copy i j) w = Unit
Allowed (assign i j) w = Unit
Allowed (write_to i values) w =
    ((w.objects i).written + length values ≤ max_alloc)
    × ((j : ℕ)
        → i ≢ j
        → (w.objects i).block ≡ (w.objects j).block
        → (w.objects j).written ≤ (w.objects i).written)
Allowed (read_from i n) w = n ≤ length (contents (view i w))

abbrev pub all_contents : World → ℕ → List ℕ
all_contents w k = contents (view k w)

later : {a b : ℕ} → a < b → b ≢ a
later h e = omega arith

-- One stream has become `new`, and the others are as they were.
update_matches :
    (c c' : ℕ → List ℕ) (i : ℕ) (new : List ℕ)
    → c' i ≡ new
    → ((j : ℕ) → i ≢ j → c' j ≡ c j)
    → (k : ℕ) → c' k ≡ update c i new k
update_matches c c' i new here others k = elim (same_or_other i k) [
  | inl same ↦ subst (λ j. c' j ≡ update c i new j) same (here ∙ sym (update_same c i new))
  | inr other ↦ others k other ∙ sym (update_other c i k new other)
]

call-returns :
    {A : Type 0} (i : ℕ) (m : M Stream A) (w : World) {a : A} {t : Stream}
    → m (view i w) ≡ returns a t
    → call i m w ≡ returns a (put_back i t w)
unfolding call
call-returns i m w h = ap (settle i w) h

module _ ⦃memory : Memory⦄ where
  unfoldable pub exec : Op → M World (List ℕ)
  unfolding copy_construct copy_assign construct call
  exec (make i size) w = returns [] (construct i size w)
  exec (copy i j) w = returns [] (copy_construct i j w)
  exec (assign i j) w = returns [] (copy_assign i j w)
  exec (write_to i values) w = (do call i (write values); ret []) w
  exec (read_from i n) w = call i (read_bytes n) w

  -- One operation of the world against its specification.
  abbrev pub Refines : Op → World → World → Type 0
  Refines op w w' =
      (exec op w ≡ returns (answer op (all_contents w)) w')
      × IsSound w'
      × ((k : ℕ) → contents (view k w') ≡ spec op (all_contents w) k)

  exec_write :
      (i : ℕ) (values : List ℕ) (w : World)
      → IsSound w
      → Allowed (write_to i values) w
      → (w' : World) × Refines (write_to i values) w w'
  unfolding exec
  exec_write i values w sound (fits, last) =
      let s = view i w in
      let (t, ran, grown) = write-Grown s values (sound.valid i) fits in
      let added = store-Appended s t values (sound.valid i) grown in
      let t' = filled values t in
      let keeps : Keeps i w t' s.written = record {
        valid = added.valid;
        room = omega (arith, grown.fits);
        kept = filled_kept s t values grown;
        within = last;
      } in
      let (sound', here, others) = put_back_lem i w t' s.written sound keeps in
      (
        put_back i t' w,
        (
          >>=-returns (call i (write values)) (λ _. ret []) w (call-returns i (write values) w ran),
          sound',
          update_matches (all_contents w) (all_contents (put_back i t' w)) i (contents s ++ values)
              (here ∙ added.appended) others,
        ),
      )

  exec_read :
      (i n : ℕ) (w : World)
      → IsSound w
      → Allowed (read_from i n) w
      → (w' : World) × Refines (read_from i n) w w'
  unfolding exec
  exec_read i n w sound fits =
      let s = view i w in
      let used = advanced-Consumed s n (sound.valid i) fits in
      let t = advanced s n in
      let keeps : Keeps i w t s.buf.size = record {
        valid = used.valid;
        room = omega arith;
        kept = refl;
        within = λ j other shared.
            subst (λ b. (w.objects j).written ≤ (w.blocks b).size) (sym shared)
              (sound.valid j).room;
      } in
      let (sound', here, others) = put_back_lem i w t s.buf.size sound keeps in
      (
        put_back i t w,
        (
          call-returns i (read_bytes n) w (read_bytes-enough s n (sound.valid i) fits),
          sound',
          update_matches (all_contents w) (all_contents (put_back i t w)) i (drop n (contents s))
              (here ∙ used.remaining) others,
        ),
      )

  exec_make :
      (i size : ℕ) (w : World)
      → IsSound w
      → size ≤ max_alloc
      → (w' : World) × Refines (make i size) w w'
  unfolding exec construct dklibrary.Stream.create_stream
  exec_make i size w sound fits =
      let blocks = update w.blocks w.next (create size) in
      let h : Handle = record { read = 0; written = 0; block = w.next } in
      let (valid, none_yet, _, _) = create_stream-IsValid size fits in
      let new : create size ≡ blocks w.next = sym (update_same w.blocks w.next (create size)) in
      let valid' = subst (λ b. IsValid (record { read = 0; written = 0; buf = b })) new valid in
      let agrees : (j : ℕ) → blocks (w.objects j).block ≡ w.blocks (w.objects j).block = λ j.
        update_other w.blocks w.next (w.objects j).block (create size) (later (sound.made j)) in
      let (sound', here, others) =
        bind_lem i h blocks (w.next + 1) w sound valid' (omega arith) (omega arith) agrees in
      (
        construct i size w,
        (
          refl,
          sound',
          update_matches (all_contents w) (all_contents (construct i size w)) i [] here others,
        ),
      )

  exec_copy :
      (i j : ℕ) (w : World)
      → IsSound w
      → IsSound (copy_construct i j w)
        × ((k : ℕ)
            → contents (view k (copy_construct i j w))
              ≡ update (all_contents w) i (all_contents w j) k)
  unfolding copy_construct
  exec_copy i j w sound =
      let (sound', here, others) =
        bind_lem i (w.objects j) w.blocks w.next w sound (sound.valid j) (omega arith)
          (sound.made j) (λ k. refl) in
      (
        sound',
        update_matches (all_contents w) (all_contents (copy_construct i j w)) i (all_contents w j)
            here others,
      )

  assign-itself : (i j : ℕ) (w : World) → i ≡ j → copy_assign i j w ≡ w
  unfolding copy_assign
  assign-itself i j w same = ground arith

  assign-copies : (i j : ℕ) (w : World) → i ≢ j → copy_assign i j w ≡ copy_construct i j w
  unfolding copy_assign copy_construct
  assign-copies i j w other = ground arith

  -- Assignment from another object is a copy, and of an object to itself changes nothing.
  exec_assign : (i j : ℕ) (w : World) → IsSound w → (w' : World) × Refines (assign i j) w w'
  unfolding exec
  exec_assign i j w sound = elim (same_or_other i j) [
    | inl same ↦ (
      w,
      (
        ap (returns []) (assign-itself i j w same),
        sound,
        λ k.
            update_matches (all_contents w) (all_contents w) i (all_contents w j)
              (ap (all_contents w) same) (λ _ _. refl) k,
      ),
    )
    | inr other ↦
        let (sound', matches) = exec_copy i j w sound in
        (copy_construct i j w, (ap (returns []) (assign-copies i j w other), sound', matches))
  ]

  -- Every allowed operation on streams that share blocks succeeds, returns what it would return if
  -- each stream had bytes of its own, and does to the readable bytes of each stream what it would do
  -- then; no other stream notices.
  pub exec-Refines :
      (op : Op) (w : World) → IsSound w → Allowed op w → (w' : World) × Refines op w w'
  unfolding exec
  exec-Refines (make i size) w sound fits = exec_make i size w sound fits
  exec-Refines (copy i j) w sound tt =
      let (sound', matches) = exec_copy i j w sound in
      (copy_construct i j w, (refl, sound', matches))
  exec-Refines (assign i j) w sound tt = exec_assign i j w sound
  exec-Refines (write_to i values) w sound allowed = exec_write i values w sound allowed
  exec-Refines (read_from i n) w sound fits = exec_read i n w sound fits
