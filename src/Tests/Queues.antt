-- ===== src/Tests/Queues.antt =====
-- LibraryNet/RecvQueue.cpp and LibraryNet/SendQueue.cpp.
use dklibrary.Common.{
  ℕ, ◌+◌, ◌≤◌, ◌<◌, ◌≡◌, ◌⊎◌, refl, arith, inr, List, [], ◌∷◌, ◌++◌, length, take, drop, leb,
  if◌then◌else◌, returns, throws, assertion,
}
use dklibrary.StreamBuf.{max_alloc}
use dklibrary.Stream
use dklibrary.Stream.{Stream, create_stream, write, stream_of}
use dklibrary.Stream.Valid
use dklibrary.RecvQueue.{
  RecvQueue, buffers, readable_size, writable_size, prepare, commit, peek, pop, detachable, detach,
}
use dklibrary.RecvQueue.Valid.{InOrder, IsValid, contents, total_alloc}
use dklibrary.RecvQueue.Regions.{AllFree, total_size, buffers_lem}
use dklibrary.RecvQueue.Buffers.{scatter}
use dklibrary.RecvQueue.Cycle.{commit-scatter-prepare}
use dklibrary.RecvQueue.Arrival.{Arrives}
use dklibrary.RecvQueue.Peeking.{peek_queue_lem}
use dklibrary.RecvQueue.Popping.{Popped, pop_queue_lem}
use dklibrary.RecvQueue.Detaching.{detach_lem}
use dklibrary.SendQueue
use dklibrary.SendQueue.{SendQueue, push_bytes, push_stream}
use dklibrary.SendQueue.Consuming.{pending, IsReady, consume_queue_lem}
use dklibrary.SendQueue.Stalling.{consume_after_empty_push}
use dklibrary.Tests.Data.{zeroed, state_of, small, small-IsValid, blank, blank-IsValid}

-- Room for two more bytes in the first stream and for ten in the second.
abbrev two : RecvQueue
two = small ∷ blank ∷ []

two-InOrder : InOrder two
two-InOrder = (small-IsValid, omega arith, inr refl, (blank-IsValid, omega arith, inr refl, tt))

two-IsValid : IsValid two
two-IsValid = record { in_order = two-InOrder; bounded = omega arith }

buffers_lem_example : AllFree two (buffers two) × (writable_size two ≡ total_size (buffers two))
buffers_lem_example = buffers_lem two two-IsValid

two-buffers : buffers two ≡ (
    record { stream = 0; offset = 8; size = 2 } ∷ record { stream = 1; offset = 0; size = 10 } ∷ [])
unfolding buffers
two-buffers = refl

nothing-IsValid : IsValid []
nothing-IsValid = record { in_order = tt; bounded = omega arith }

abbrev three_bytes : List ℕ
three_bytes = 7 ∷ 8 ∷ 9 ∷ []

commit-scatter-prepare_example :
    (p : RecvQueue) × (r : RecvQueue) × (prepare 3 two ≡ returns tt p)
    × (commit 3 (scatter (buffers p) three_bytes p) ≡ returns tt r)
    × IsValid r
    × (contents r ≡ contents two ++ three_bytes)
    × Arrives two three_bytes r
    × (total_alloc r ≤ total_alloc two + max_alloc)
commit-scatter-prepare_example =
    commit-scatter-prepare 3 two three_bytes two-IsValid (omega arith) (omega arith) (omega arith)

peek_queue_lem_example : peek 3 two ≡ (
    if leb 3 (length (contents two))
    then returns (take 3 (contents two)) two
    else throws assertion two)
peek_queue_lem_example = peek_queue_lem 3 two two-IsValid

pop_queue_lem_example :
    ((3 ≤ length (contents two))
      × ((q' : RecvQueue) × (pop 3 two ≡ returns tt q') × Popped two 3 q'))
    ⊎ ((length (contents two) < 3) × (pop 3 two ≡ throws assertion two))
pop_queue_lem_example = pop_queue_lem 3 two two-IsValid

pop_all : contents (state_of (pop 8 two)) ≡ []
unfolding pop readable_size Stream.pop
pop_all = refl

detach_lem_example :
    (s : Stream) × (q' : RecvQueue) × (detach two ≡ returns s q')
    × Valid.IsValid s
    × (Valid.contents s ≡ take 8 (contents two))
    × (contents q' ≡ drop 8 (contents two))
    × IsValid q'
unfolding detachable
detach_lem_example = detach_lem 8 two two-IsValid refl

-- Two strings to be sent.
abbrev outgoing : SendQueue
outgoing = small ∷ small ∷ []

outgoing-IsReady : IsReady outgoing
outgoing-IsReady = (small-IsValid, omega arith, (small-IsValid, omega arith, tt))

consume_queue_lem_example :
    (q' : SendQueue) × (SendQueue.consume 11 outgoing ≡ returns tt q')
    × IsReady q'
    × (pending q' ≡ drop 11 (pending outgoing))
consume_queue_lem_example = consume_queue_lem 11 outgoing outgoing-IsReady (omega arith)

abbrev after_empty : SendQueue
after_empty = record { read = 0; written = 0; buf = record { size = 0; bytes = [] } } ∷ []

blocked : SendQueue
blocked = state_of (push_bytes three_bytes after_empty)

consume_after_empty_push_example :
    (pending blocked ≡ three_bytes) × (SendQueue.consume 2 blocked ≡ throws assertion blocked)
unfolding blocked push_bytes write create_stream stream_of
consume_after_empty_push_example =
    consume_after_empty_push three_bytes 2 after_empty blocked (omega arith) refl refl (omega arith)
