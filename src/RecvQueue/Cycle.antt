-- ===== src/RecvQueue/Cycle.antt =====
-- One receive with LibraryNet/RecvQueue.cpp: prepare, a write of the socket to the buffers, commit.
use dklibrary.Common.{
  ℕ, ◌+◌, ◌^◌, ◌≤◌, ◌<◌, ◌≡◌, refl, ap, arith, List, ◌++◌, length, drop, returns, length-append,
}
use dklibrary.StreamBuf.{Memory, max_alloc}
use dklibrary.RecvQueue.{RecvQueue, prepare, buffers, commit}
use dklibrary.RecvQueue.Valid.{IsValid, contents, space, total_alloc}
use dklibrary.RecvQueue.Preparing.{prepare_lem}
use dklibrary.RecvQueue.Receiving.{commit_queue_lem}
use dklibrary.RecvQueue.Arrival.{
  Arrives, start, room, chunk, Arrives-contents, Filled-InOrder, Filled-total_alloc,
}
use dklibrary.RecvQueue.Buffers.{scatter, scatter-Takes}

module _ ⦃memory : Memory⦄ where
  -- A receive of at most as many bytes as room was prepared for appends them to what can be read:
  -- prepare and commit succeed, and the socket has written the bytes to the buffers that lie between
  -- them, one after another.
  pub commit-scatter-prepare :
      (n : ℕ) (q : RecvQueue) (bytes : List ℕ)
      → IsValid q
      → n ≤ max_alloc
      → total_alloc q + max_alloc < 2 ^ 63
      → length bytes ≤ n
      → (p : RecvQueue) × (r : RecvQueue) × (prepare n q ≡ returns tt p)
        × (commit (length bytes) (scatter (buffers p) bytes p) ≡ returns tt r)
        × IsValid r
        × (contents r ≡ contents q ++ bytes)
        × Arrives q bytes r
        × (total_alloc r ≤ total_alloc q + max_alloc)
  commit-scatter-prepare n q bytes v small bound fits =
      let (p, ran, valid, same, enough, alloc) = prepare_lem n q v small bound in
      let f = scatter (buffers p) bytes p in
      let (filled, free) = scatter-Takes p bytes valid.in_order (omega arith) in
      let more = drop (length bytes) (space p) in
      let (r, ran', a) =
        commit_queue_lem (length bytes) f (Filled-InOrder p f filled valid.in_order)
          (omega (arith, ap length free, length-append bytes more)) in
      let arrives : Arrives q bytes r =
        chunk f bytes more (room n start small bound ran) filled free ran' refl in
      let (valid', holds) = Arrives-contents arrives v in
      (
        p,
        r,
        ran,
        ran',
        valid',
        holds,
        arrives,
        omega (arith, a.same_alloc, Filled-total_alloc p f filled),
      )
