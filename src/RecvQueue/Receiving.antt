-- ===== src/RecvQueue/Receiving.antt =====
-- commit of LibraryNet/RecvQueue.cpp: the arrival of received bytes.
use dklibrary.Common.{
  ℕ, ◌+◌, ◌-◌, ◌≤◌, ◌≡◌, ◌⊎◌, refl, sym, ap, ◌∙◌, arith, List, [], ◌∷◌, ◌++◌, length, take, drop,
  length-append, length-drop, append_assoc, append-nil, drop_all, take_all, take-append_left,
  take-append_right, drop-append_left, drop-append_right, drop-drop, leb, Bool-cases, inl, inr,
  leb→le, leb→gt, returns,
}
use dklibrary.Stream
use dklibrary.Stream.{Stream, create_stream}
use dklibrary.Stream.Valid
use dklibrary.Stream.Valid.{create_stream-IsValid}
use dklibrary.Stream.Writing.{commit-Appended, commit_lem}
use dklibrary.RecvQueue.{RecvQueue, commit}
use dklibrary.RecvQueue.Valid.{contents, space, total_alloc, InOrder}
use dklibrary.RecvQueue.Sizes.{length-room}

-- Bytes move past others where one of the two groups is empty.
pass_empty :
    (front moved passed back : List ℕ)
    → (moved ≡ []) ⊎ (passed ≡ [])
    → (front ++ moved) ++ (passed ++ back) ≡ (front ++ passed) ++ (moved ++ back)
pass_empty front moved passed back (inl e) =
    rw (e, append-nil) (sym (append_assoc front passed back))
pass_empty front moved passed back (inr e) = rw (e, append-nil) (append_assoc front moved back)

pass_empty_end :
    (front moved passed : List ℕ)
    → (moved ≡ []) ⊎ (passed ≡ [])
    → (front ++ moved) ++ passed ≡ (front ++ passed) ++ moved
pass_empty_end front moved passed (inl e) = rw e (simp append-nil)
pass_empty_end front moved passed (inr e) = rw e (simp append-nil)

-- What has arrived is at the end of what can be read, and in front of it stands what was there.
pub record Arrived (q : RecvQueue) (n : ℕ) (q' : RecvQueue) : Type 0 where
  pub in_order : InOrder q'
  pub arrived : contents q' ≡ contents q ++ take n (space q)
  pub room_left : space q' ≡ drop n (space q)
  pub same_alloc : total_alloc q' ≡ total_alloc q

module _ (s : Stream) (q : RecvQueue) (n : ℕ) (h : InOrder (s ∷ q)) where
  no_room :
      (s.written ≡ s.buf.size) ⊎ (contents q ≡ [])
      → (k : ℕ) → (take k (drop s.written s.buf.bytes) ≡ []) ⊎ (contents q ≡ [])
  no_room (inl full) k = inl (
      let none_left : drop s.written s.buf.bytes ≡ [] =
        drop_all s.written s.buf.bytes (omega arith) in
      rw none_left (take_all k [] (omega arith)))
  no_room (inr e) k = inr e

  -- The front stream takes all.
  commit_here :
      n ≤ length (drop s.written s.buf.bytes)
      → Arrived (s ∷ q) n (record s { written = s.written + n } ∷ q)
  commit_here fits =
      let block = drop s.written s.buf.bytes in
      let added = commit-Appended s n h.0 (omega (arith, length-drop s.written s.buf.bytes)) in
      record {
        in_order = (added.valid, h.1, stays_in_order h.2, h.3);
        arrived =
            ap (λ bs. bs ++ contents q) added.appended
            ∙ pass_empty_end (Valid.contents s) (take n block) (contents q) (no_room h.2 n)
            ∙ ap (λ bs. (Valid.contents s ++ contents q) ++ bs)
                (sym (take-append_left n block (space q) fits));
        room_left =
            ap (λ bs. bs ++ space q) (sym (drop-drop n s.written s.buf.bytes))
            ∙ sym (drop-append_left n block (space q) fits);
        same_alloc = refl;
      }
    where
      stays_in_order :
          (s.written ≡ s.buf.size) ⊎ (contents q ≡ [])
          → (s.written + n ≡ s.buf.size) ⊎ (contents q ≡ [])
      stays_in_order (inl full) = inl (omega (arith, length-drop s.written s.buf.bytes))
      stays_in_order (inr e) = inr e

  -- The front stream is filled, and the others take the rest.
  commit_past :
      (k : ℕ) (q' : RecvQueue)
      → k ≡ length (drop s.written s.buf.bytes)
      → k ≤ n
      → Arrived q (n - k) q'
      → Arrived (s ∷ q) n (record s { written = s.written + k } ∷ q')
  commit_past k q' len long a =
      let block = drop s.written s.buf.bytes in
      let filled : s.written + k ≡ s.buf.size = omega (arith, length-drop s.written s.buf.bytes) in
      let added = commit-Appended s k h.0 (omega (arith, filled)) in
      let all_of_it : take k block ≡ block = take_all k block (omega arith) in
      record {
        in_order = (added.valid, h.1, inl filled, a.in_order);
        arrived =
            ap (λ bs. bs ++ contents q')
              (added.appended ∙ ap (λ bs. Valid.contents s ++ bs) all_of_it)
            ∙ ap (λ bs. (Valid.contents s ++ block) ++ bs) a.arrived
            ∙ pass_empty (Valid.contents s) block (contents q) (take (n - k) (space q))
                (subst_block (no_room h.2 k) all_of_it)
            ∙ ap (λ bs. (Valid.contents s ++ contents q) ++ bs)
                (ap (λ j. block ++ take (n - j) (space q)) len
                  ∙ sym (take-append_right n block (space q) (omega arith)));
        room_left =
            ap (λ bs. bs ++ space q') (drop_all (s.written + k) s.buf.bytes (omega arith))
            ∙ a.room_left
            ∙ ap (λ j. drop (n - j) (space q)) len
            ∙ sym (drop-append_right n block (space q) (omega arith));
        same_alloc = omega (arith, a.same_alloc);
      }
    where
      subst_block :
          {xs ys : List ℕ} → (xs ≡ []) ⊎ (contents q ≡ []) → xs ≡ ys → (ys ≡ []) ⊎ (contents q ≡ [])
      subst_block (inl e) p = inl (sym p ∙ e)
      subst_block (inr e) p = inr e

-- A commit within the room succeeds, and makes the next `n` bytes of the handed out buffers, in the
-- order of the buffers, the last bytes that can be read.
pub commit_queue_lem :
    (n : ℕ) (q : RecvQueue)
    → InOrder q
    → n ≤ length (space q)
    → (q' : RecvQueue) × (commit n q ≡ returns tt q') × Arrived q n q'
unfolding commit
commit_queue_lem n [] h fits = (
  [],
  refl,
  record {
    in_order = tt;
    arrived = sym (take_all n [] (omega arith));
    room_left = sym (drop_all n [] (omega arith));
    same_alloc = refl;
  },
)
commit_queue_lem n (s ∷ q) h fits = elim (Bool-cases (leb n (Stream.writable_size s))) [
  | inl here ↦
      let within : n ≤ length (drop s.written s.buf.bytes) =
        omega (arith, length-room s h.0, leb→le n (Stream.writable_size s) here) in
      let room : s.written + n ≤ s.buf.size = omega (arith, length-drop s.written s.buf.bytes) in
      (
        record s { written = s.written + n } ∷ q,
        rw (here, commit_lem s n room h.0.sound.bounded),
        commit_here s q n h within,
      )
  | inr past ↦
      let k = Stream.writable_size s in
      let block = drop s.written s.buf.bytes in
      let len : k ≡ length block = omega (arith, length-room s h.0) in
      let long : k ≤ n = omega (arith, leb→gt n k past) in
      let rest = commit_queue_lem (n - k) q h.3 (omega (arith, length-append block (space q))) in
      let ran =
        commit_lem s k (omega (arith, length-drop s.written s.buf.bytes)) h.0.sound.bounded in
      (
        record s { written = s.written + k } ∷ rest.0,
        rw (past, ran, rest.1),
        commit_past s q n h k rest.0 len long rest.2,
      )
]
