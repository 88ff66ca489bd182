-- ===== src/RecvQueue.antt =====
-- LibraryNet/RecvQueue.h and .cpp: the received bytes, as a queue of streams. The state is
-- m_StreamQueue, front first. Each stream of the queue owns its block alone.
pub mod Valid
pub mod Sizes
pub mod Preparing
pub mod Receiving
pub mod Arrival
pub mod Regions
pub mod Buffers
pub mod Cycle
pub mod Peeking
pub mod Popping
pub mod Detaching
use dklibrary.Common.{
  ℕ, zero, suc, ◌+◌, ◌-◌, min, max, ltb, leb, ◌==◌, if◌then◌else◌, Bool, true, false, ◌&&◌, ◌||◌,
  List, [], ◌∷◌, ◌++◌, length, M, Outcome, returns, throws, assertion, undefined, stuck, modify,
  check, ◌>>=◌, ◌>>◌,
}
use dklibrary.Common.Word.{add64}
use dklibrary.StreamBuf.{Memory}
use dklibrary.Stream
use dklibrary.Stream.{Stream, create_stream, alloc_size, reset}

abbrev pub RecvQueue : Type 0
RecvQueue = List Stream

abbrev pub default_buf_size : ℕ
default_buf_size = 4096

abbrev pub is_empty : RecvQueue → Bool
is_empty [] = true
is_empty (s ∷ q) = false

abbrev pub clear : RecvQueue → RecvQueue
clear q = []

-- The loops of getReadableSize and getWritableSize, with the sum so far.
pub add_readable : ℕ → RecvQueue → ℕ
add_readable sum [] = sum
add_readable sum (s ∷ q) = add_readable (add64 sum (Stream.readable_size s)) q

pub add_writable : ℕ → RecvQueue → ℕ
add_writable sum [] = sum
add_writable sum (s ∷ q) = add_writable (add64 sum (Stream.writable_size s)) q

unfoldable pub readable_size : RecvQueue → ℕ
unfolding add_readable
readable_size q = add_readable 0 q

unfoldable pub writable_size : RecvQueue → ℕ
unfolding add_writable
writable_size q = add_writable 0 q

-- A mutable_buffer: which stream of the queue, where in its block, and how many bytes.
pub record Region : Type 0 where
  pub stream : ℕ
  pub offset : ℕ
  pub size : ℕ

pub regions : ℕ → RecvQueue → List Region
regions i [] = []
regions i (s ∷ q) =
    let rest = regions (i + 1) q in
    if ltb 0 (Stream.writable_size s)
    then record { stream = i; offset = s.written; size = Stream.writable_size s } ∷ rest
    else rest

unfoldable pub buffers : RecvQueue → List Region
unfolding regions
buffers q = regions 0 q

-- What a call on the front stream, or on the streams behind it, leaves of the whole queue.
abbrev pub on_front : {A : Type 0} → Outcome Stream A → RecvQueue → Outcome RecvQueue A
on_front (returns a s) q = returns a (s ∷ q)
on_front (throws e s) q = throws e (s ∷ q)

abbrev pub behind : {A : Type 0} → Stream → Outcome RecvQueue A → Outcome RecvQueue A
behind s (returns a q) = returns a (s ∷ q)
behind s (throws e q) = throws e (s ∷ q)

-- `size -= writableSize` runs where the size is the larger.
unfoldable pub commit : ℕ → M RecvQueue (Unit {0})
commit n [] = returns tt []
commit n (s ∷ q) =
    let rest = commit (n - Stream.writable_size s) q in
    if leb n (Stream.writable_size s)
    then on_front (Stream.commit n s) q
    else elim (Stream.commit (Stream.writable_size s) s) [
      | returns _ s' ↦ behind s' rest
      | throws e s' ↦ throws e (s' ∷ q)
    ]

abbrev pub prefixed : List ℕ → Outcome RecvQueue (List ℕ) → Outcome RecvQueue (List ℕ)
prefixed front (returns others q) = returns (front ++ others) q
prefixed front (throws e q) = throws e q

-- The loop of peek; the bytes are those put at `data`, and the queue stays as it is.
pub peek_loop : ℕ → RecvQueue → Outcome RecvQueue (List ℕ)
peek_loop n [] = returns [] []
peek_loop n (s ∷ q) =
    let rest = peek_loop (n - Stream.readable_size s) q in
    if leb n (Stream.readable_size s)
    then on_front (Stream.peek n s) q
    else elim (Stream.peek (Stream.readable_size s) s) [
      | returns front s' ↦ behind s' (prefixed front rest)
      | throws e s' ↦ throws e (s' ∷ q)
    ]

unfoldable pub peek : ℕ → M RecvQueue (List ℕ)
unfolding peek_loop
peek n q = (do check (leb n (readable_size q)); peek_loop n) q

-- The body of the loop of pop, at the front stream: `left` bytes are still to go, `taken` of them
-- from this stream, and `again` is the rest of the loop. After a reset the iterator stays where it
-- is, so that the loop looks at the same stream again.
pub pop_round :
    (ℕ → RecvQueue → Outcome RecvQueue (Unit {0}))
    → ℕ
    → ℕ
    → Stream
    → RecvQueue
    → Outcome RecvQueue (Unit {0})
pop_round again taken left s q = elim (Stream.pop taken s) [
  | returns _ s' ↦
      if Stream.readable_size s' == 0
      then (if is_empty q && (alloc_size s' == default_buf_size)
          then go_on (reset s' ∷ [])
          else go_on q)
      else (if left - taken == 0 then returns tt (s' ∷ q) else behind s' (again (left - taken) q))
  | throws e s' ↦ throws e (s' ∷ q)
]
  where
    go_on : RecvQueue → Outcome RecvQueue (Unit {0})
    go_on q' = if left - taken == 0 then returns tt q' else again (left - taken) q'

-- `stuck` is no outcome of the loop.
pub pop_loop : ℕ → ℕ → RecvQueue → Outcome RecvQueue (Unit {0})
unfolding pop_round
pop_loop zero left q = throws stuck q
pop_loop (suc fuel) left [] = check (left == 0) []
pop_loop (suc fuel) left (s ∷ q) =
    pop_round (pop_loop fuel) (min (Stream.readable_size s) left) left s q

unfoldable pub pop : ℕ → M RecvQueue (Unit {0})
unfolding pop_loop
pop n q = (do check (leb n (readable_size q)); pop_loop (length q + 1) n) q

-- front() and pop_front() of an empty deque are undefined.
unfoldable pub detachable : ℕ → M RecvQueue Bool
detachable n [] = throws undefined []
detachable n (s ∷ q) = returns (Stream.readable_size s == n) (s ∷ q)

unfoldable pub detach : M RecvQueue Stream
detach [] = throws undefined []
detach (s ∷ q) = returns s q

module _ ⦃memory : Memory⦄ where
  unfoldable pub prepare : ℕ → M RecvQueue (Unit {0})
  prepare n q =
      if is_empty q || ltb (writable_size q) n
      then returns tt (q ++ (create_stream (max n default_buf_size) ∷ []))
      else returns tt q
