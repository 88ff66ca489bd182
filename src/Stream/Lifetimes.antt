-- ===== src/Stream/Lifetimes.antt =====
-- How long the blocks of LibraryBase/StreamBuf.h live: each Stream of LibraryBase/Stream.h has a
-- shared_ptr to a block, and the last one that goes destroys the block. A block is named by its
-- address.
pub mod Counting
pub mod Releasing
pub mod Safety
use dklibrary.Common.{
  ℕ, ◌+◌, ◌-◌, ◌≡◌, ◌==◌, if◌then◌else◌, Bool, false, ◌||◌, List, [], ◌∷◌, ◌++◌, length, ◌≤◌,
  returns,
}
use dklibrary.StreamBuf.{Memory, StreamBuf, empty_buf, create, deallocate, max_alloc}
use dklibrary.Stream.{Stream, write}
use dklibrary.Stream.Valid.{IsValid}
use dklibrary.Stream.Shared.{update}

-- Of every block: the use count of its shared_ptrs, the StreamBuf, and how often free was called for
-- its buffer. `corrupted` is set where deallocate logs that the heap is corrupted; `next` is the
-- address of the next block.
pub record Blocks : Type 0 where
  pub uses : ℕ → ℕ
  pub buffers : ℕ → StreamBuf
  pub frees : ℕ → ℕ
  pub corrupted : Bool
  pub next : ℕ

abbrev pub no_blocks : Blocks
no_blocks = record {
  uses = λ b. 0;
  buffers = λ b. empty_buf;
  frees = λ b. 0;
  corrupted = false;
  next = 0;
}

-- A copy of a shared_ptr.
unfoldable pub acquire : ℕ → Blocks → Blocks
acquire b o = record o { uses = update o.uses b (o.uses b + 1) }

-- ~StreamBuf()
unfoldable pub destroy_block : ℕ → Blocks → Blocks
destroy_block b o =
    let d = deallocate (o.buffers b) in
    record o {
      buffers = update o.buffers b d.left;
      frees = update o.frees b (o.frees b + (if d.freed then 1 else 0));
      corrupted = o.corrupted || d.corrupted;
    }

-- A shared_ptr goes, and with the last one the block.
unfoldable pub release : ℕ → Blocks → Blocks
unfolding destroy_block
release b o =
    let fewer = record o { uses = update o.uses b (o.uses b - 1) } in
    if fewer.uses b == 0 then destroy_block b fewer else fewer

-- m_buf = other.m_buf in operator=, from the block that the stream had to that of the other.
unfoldable pub assign_block : ℕ → ℕ → Blocks → Blocks
unfolding acquire release
assign_block from to o = release from (acquire to o)

module _ ⦃memory : Memory⦄ where
  -- m_buf(new StreamBuf(size))
  unfoldable pub make_block : ℕ → Blocks → Blocks
  make_block size o = record o {
    uses = update o.uses o.next 1;
    buffers = update o.buffers o.next (create size);
    next = o.next + 1;
  }

  -- What can happen to the streams that are alive, which are listed by the blocks of their m_buf.
  pub data Step : Blocks → List ℕ → Blocks → List ℕ → Type 0 where
    -- Stream(size)
    construct :
        {o : Blocks} {streams : List ℕ} (size : ℕ)
        → size ≤ max_alloc
        → Step o streams (make_block size o) (o.next ∷ streams)
    -- Stream(const Stream&)
    copy :
        {o : Blocks} {streams : List ℕ} (before behind : List ℕ) (b : ℕ)
        → streams ≡ before ++ (b ∷ behind)
        → Step o streams (acquire b o) (b ∷ streams)
    -- operator= of two different streams
    assign :
        {o : Blocks} {streams : List ℕ} (before behind before' behind' : List ℕ) (from to : ℕ)
        → streams ≡ before ++ (from ∷ behind)
        → streams ≡ before' ++ (to ∷ behind')
        → Step o streams (assign_block from to o) (before ++ (to ∷ behind))
    -- ~Stream()
    destroy :
        {o : Blocks} {streams : List ℕ} (before behind : List ℕ) (b : ℕ)
        → streams ≡ before ++ (b ∷ behind)
        → Step o streams (release b o) (before ++ behind)
    -- write, through a stream whose m_buf is the block
    writes :
        {o : Blocks} {streams : List ℕ} (before behind : List ℕ) (b : ℕ) (s t : Stream)
        (values : List ℕ)
        → streams ≡ before ++ (b ∷ behind)
        → IsValid s
        → s.buf ≡ o.buffers b
        → s.written + length values ≤ max_alloc
        → write values s ≡ returns tt t
        → Step o streams (record o { buffers = update o.buffers b t.buf }) streams

  pub data Reach : Blocks → List ℕ → Type 0 where
    initially : Reach no_blocks []
    next :
        {o o' : Blocks} {streams streams' : List ℕ}
        → Reach o streams
        → Step o streams o' streams'
        → Reach o' streams'
