-- ===== src/RecvQueue/Detaching.antt =====
-- detachable and detach of LibraryNet/RecvQueue.cpp.
use dklibrary.Common.{
  ℕ, ◌<◌, ◌≡◌, refl, sym, arith, Bool, true, [], ◌∷◌, length, take, drop, ◌==◌, ==→eq, returns,
  take-append_exact, drop-append_exact,
}
use dklibrary.Stream.{Stream, readable_size}
use dklibrary.Stream.Valid
use dklibrary.Stream.Codec.Text.{readable_size_lem}
use dklibrary.RecvQueue.{RecvQueue, detachable, detach}
use dklibrary.RecvQueue.Valid.{contents, IsValid}

-- Where bytes can be read there is a front stream, and the test does not leave the queue.
pub detachable_lem :
    (n : ℕ) (q : RecvQueue) → 0 < length (contents q) → (b : Bool) × (detachable n q ≡ returns b q)
unfolding detachable
detachable_lem n [] some_left = absurd (omega arith)
detachable_lem n (s ∷ q) some_left = (readable_size s == n, refl)

-- If the front stream holds exactly `n` bytes, detach returns it: its bytes are the first `n` of the
-- queue, and the queue keeps the others.
pub detach_lem :
    (n : ℕ) (q : RecvQueue)
    → IsValid q
    → detachable n q ≡ returns true q
    → (s : Stream) × (q' : RecvQueue) × (detach q ≡ returns s q')
      × Valid.IsValid s
      × (Valid.contents s ≡ take n (contents q))
      × (contents q' ≡ drop n (contents q))
      × IsValid q'
unfolding detachable detach
detach_lem n [] v e = cc
detach_lem n (s ∷ q) v e =
    let front = Valid.contents s in
    let test : (readable_size s == n) ≡ true = cc in
    let len : length front ≡ n =
      omega (arith, ==→eq (readable_size s) n test, readable_size_lem s v.in_order.0) in
    (
      s,
      q,
      refl,
      v.in_order.0,
      rw (← len) (sym (take-append_exact front (contents q))),
      rw (← len) (sym (drop-append_exact front (contents q))),
      record { in_order = v.in_order.3; bounded = omega (arith, v.bounded) },
    )
