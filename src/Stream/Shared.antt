-- ===== src/Stream/Shared.antt =====
-- Copies of a Stream of LibraryBase/Stream.h: a stream has its own cursors, and a shared_ptr to the
-- block. `objects` are the streams by their addresses, `blocks` the StreamBufs by theirs.
pub mod Views
pub mod Refining
use dklibrary.Common.{
  ℕ, ◌+◌, ◌==◌, if◌then◌else◌, Bool, true, false, List, M, Outcome, returns, throws, ◌>>=◌, ◌>>◌,
  ret,
}
use dklibrary.StreamBuf.{Memory, StreamBuf, create}
use dklibrary.Stream
use dklibrary.Stream.{Stream}

-- m_read, m_written and m_buf.
pub record Handle : Type 0 where
  pub read : ℕ
  pub written : ℕ
  pub block : ℕ

-- `next` is the address of the next block that is made.
pub record World : Type 0 where
  pub objects : ℕ → Handle
  pub blocks : ℕ → StreamBuf
  pub next : ℕ

abbrev pub update : {A : Type 0} → (ℕ → A) → ℕ → A → ℕ → A
update f i a j = if i == j then a else f j

-- A pointer into a block.
pub record Pointer : Type 0 where
  pub block : ℕ
  pub offset : ℕ

-- getBuffer, getReadableBuffer and getWritableBuffer
abbrev pub get_buffer : Handle → Pointer
get_buffer h = record { block = h.block; offset = 0 }

abbrev pub get_readable_buffer : Handle → Pointer
get_readable_buffer h = record (get_buffer h) { offset = h.read }

abbrev pub get_writable_buffer : Handle → Pointer
get_writable_buffer h = record (get_buffer h) { offset = h.written }

-- *this of the object at `i`, as its methods see it.
abbrev pub seen : (ℕ → StreamBuf) → Handle → Stream
seen blocks h = record { read = h.read; written = h.written; buf = blocks h.block }

abbrev pub view : ℕ → World → Stream
view i w = seen w.blocks (w.objects i)

-- What a method leaves of *this.
abbrev pub put_back : ℕ → Stream → World → World
put_back i s w =
    let block = (w.objects i).block in
    record w {
      objects = update w.objects i (record { read = s.read; written = s.written; block = block });
      blocks = update w.blocks block s.buf;
    }

abbrev pub settle : {A : Type 0} → ℕ → World → Outcome Stream A → Outcome World A
settle i w (returns a s) = returns a (put_back i s w)
settle i w (throws e s) = throws e (put_back i s w)

-- A method that is called on the object at `i`.
unfoldable pub call : {A : Type 0} → ℕ → M Stream A → M World A
call i method w = settle i w (method (view i w))

-- Stream(const Stream&), of a new object at `i`
unfoldable pub copy_construct : ℕ → ℕ → World → World
copy_construct i other w = record w { objects = update w.objects i (w.objects other) }

-- operator=
unfoldable pub copy_assign : ℕ → ℕ → World → World
copy_assign i other w =
    if i == other
    then w
    else let from = w.objects other in
      let read = from.read in
      let written = from.written in
      let block = from.block in
      record w {
        objects = update w.objects i (record { read = read; written = written; block = block });
      }

module _ ⦃memory : Memory⦄ where
  -- Stream(std::size_t size): make_shared of a block, at a new address.
  unfoldable pub construct : ℕ → ℕ → World → World
  construct i size w = record {
    objects = update w.objects i (record { read = 0; written = 0; block = w.next });
    blocks = update w.blocks w.next (create size);
    next = w.next + 1;
  }
