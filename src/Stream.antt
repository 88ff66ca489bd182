-- ===== src/Stream.antt =====
-- LibraryBase/Stream.h, the class, with LibraryBase/StreamVerifier.h and .cpp: a byte buffer with a
-- read and a write cursor. `buf` is the block behind m_buf, for one stream alone;
-- `Shared` has the streams that share a block. The operators << and >> are in `Codec`.
pub mod Valid
pub mod Writing
pub mod Reading
pub mod Codec
pub mod Shared
pub mod Lifetimes
use dklibrary.Common.{
  ℕ, ◌+◌, ltb, leb, ◌==◌, if◌then◌else◌, Bool, List, length, take, drop, M, Outcome, returns,
  throws, modify, ret, ◌>>=◌, ◌>>◌, assertion, stream_exception,
}
use dklibrary.Common.Word.{add64, sub64}
use dklibrary.StreamBuf.{Memory, StreamBuf, allocate, create, overwrite}

pub record Stream : Type 0 where
  pub read : ℕ
  pub written : ℕ
  pub buf : StreamBuf

abbrev pub size : Stream → ℕ
size s = s.written

abbrev pub empty : Stream → Bool
empty s = size s == 0

-- getAllocSize
abbrev pub alloc_size : Stream → ℕ
alloc_size s = s.buf.size

-- getReadableSize. Its assertion m_read <= m_written is part of `IsValid`, which every operation
-- keeps.
abbrev pub readable_size : Stream → ℕ
readable_size s = sub64 s.written s.read

-- getWritableSize
abbrev pub writable_size : Stream → ℕ
writable_size s = sub64 (alloc_size s) s.written

-- commit and consume, with their assertions
unfoldable pub commit : ℕ → M Stream (Unit {0})
commit n s =
    if leb (add64 s.written n) (alloc_size s)
    then returns tt (record s { written = add64 s.written n })
    else throws assertion s

unfoldable pub consume : ℕ → M Stream (Unit {0})
consume n s =
    if leb (add64 s.read n) s.written
    then returns tt (record s { read = add64 s.read n })
    else throws assertion s

unfoldable pub pop : ℕ → M Stream (Unit {0})
unfolding consume
pop n = consume n

-- The `n` bytes from getReadableBuffer() on.
unfoldable pub peek : ℕ → M Stream (List ℕ)
peek n s =
    if leb (add64 s.read n) s.written
    then returns (take n (drop s.read s.buf.bytes)) s
    else throws assertion s

-- IStreamVerifier::verify
unfoldable pub verify_input : ℕ → M Stream (Unit {0})
verify_input n s =
    if ltb (readable_size s) n
    then throws (stream_exception "Stream buffer underflow") s
    else returns tt s

-- read(void*, size) and read(size)
unfoldable pub read_bytes : ℕ → M Stream (List ℕ)
unfolding verify_input peek pop
read_bytes n = do verify_input n; values ← peek n; pop n; ret values

unfoldable pub read_skip : ℕ → M Stream (Unit {0})
unfolding verify_input pop
read_skip n = do verify_input n; pop n

abbrev pub reset : Stream → Stream
reset s = record s { read = 0; written = 0 }

-- memcpy to getWritableBuffer()
abbrev pub store : List ℕ → Stream → Stream
store values s = record s { buf = record s.buf { bytes = overwrite s.buf.bytes s.written values } }

module _ ⦃memory : Memory⦄ where
  -- OStreamVerifier::verify
  unfoldable pub verify_output : ℕ → M Stream (Unit {0})
  verify_output n s =
      if ltb (writable_size s) n
      then returns tt (record s { buf = allocate s.buf (add64 (size s) n) })
      else returns tt s

  -- write(const void*, size): the list is the bytes at the pointer.
  unfoldable pub write : List ℕ → M Stream (Unit {0})
  unfolding verify_output commit
  write values = do verify_output (length values); modify (store values); commit (length values)

  -- write(size): the bytes are left as they are.
  unfoldable pub write_blank : ℕ → M Stream (Unit {0})
  unfolding verify_output commit
  write_blank n = do verify_output n; commit n

  -- Stream(std::size_t size); Stream() is `create_stream 0`.
  unfoldable pub create_stream : ℕ → Stream
  unfolding create
  create_stream n = record { read = 0; written = 0; buf = create n }

  -- Stream(const void* data, std::size_t size)
  unfoldable pub stream_of : List ℕ → Outcome Stream (Unit {0})
  unfolding create_stream write
  stream_of values = write values (create_stream (length values))
