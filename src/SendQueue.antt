-- ===== src/SendQueue.antt =====
-- LibraryNet/SendQueue.h and .cpp: the bytes to be sent, as a queue of streams. The state is
-- m_StreamQueue, front first. A stream that is pushed shares its block with its origin; the queue
-- reads the block and moves its own cursors alone, so each element is taken with the bytes that it
-- has when it is pushed.
pub mod Consuming
pub mod Stalling
use dklibrary.Common.{
  ℕ, zero, suc, ◌+◌, ◌-◌, min, ◌==◌, if◌then◌else◌, List, [], ◌∷◌, ◌++◌, length, M, Outcome,
  returns, throws, assertion, stuck, ◌>>=◌,
}
use dklibrary.StreamBuf.{Memory}
use dklibrary.Stream
use dklibrary.Stream.{Stream, stream_of}

abbrev pub SendQueue : Type 0
SendQueue = List Stream

abbrev pub clear : SendQueue → SendQueue
clear q = []

-- push(const Stream&)
unfoldable pub push_stream : Stream → M SendQueue (Unit {0})
push_stream s q = returns tt (q ++ (s ∷ []))

-- The body of the loop of consume; `again` is the rest of the loop.
pub consume_round :
    (ℕ → SendQueue → Outcome SendQueue (Unit {0})) → ℕ → SendQueue → Outcome SendQueue (Unit {0})
consume_round again size [] = throws assertion []
consume_round again size (s ∷ q) =
    let readable = min (Stream.readable_size s) size in
    if readable == 0 then throws assertion (s ∷ q) else elim (Stream.consume readable s) [
      | returns _ s' ↦ again (size - readable) (if Stream.readable_size s' == 0 then q else s' ∷ q)
      | throws e s' ↦ throws e (s' ∷ q)
    ]

-- The loop; `stuck` is no outcome of it.
pub consume_loop : ℕ → ℕ → SendQueue → Outcome SendQueue (Unit {0})
unfolding consume_round
consume_loop zero size q = throws stuck q
consume_loop (suc fuel) size q =
    let body = consume_round (consume_loop fuel) size q in if size == 0 then returns tt q else body

unfoldable pub consume : ℕ → M SendQueue (Unit {0})
unfolding consume_loop
consume size q = if size == 0 then returns tt q else consume_loop (length q + 2) size q

module _ ⦃memory : Memory⦄ where
  -- push(const char*, size_t) and push(const std::string&)
  unfoldable pub push_bytes : List ℕ → M SendQueue (Unit {0})
  push_bytes values q = elim (stream_of values) [
    | returns _ s ↦ returns tt (q ++ (s ∷ []))
    | throws e s ↦ throws e q
  ]
