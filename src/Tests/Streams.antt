-- ===== src/Tests/Streams.antt =====
-- LibraryBase/StreamBuf.h and LibraryBase/Stream.h.
use dklibrary.Common.{
  ◌≤◌, ◌<◌, ◌≡◌, ◌⊎◌, refl, arith, [], ◌∷◌, length, take, returns, throws, stream_exception, ◌>>◌,
}
use dklibrary.StreamBuf.{next_pow2}
use dklibrary.Stream.{Stream, create_stream, write, read_bytes, stream_of}
use dklibrary.Stream.Valid.{IsValid, contents}
use dklibrary.Stream.Writing.{Appended, write_lem, stream_of_lem}
use dklibrary.Stream.Reading.{Consumed, read_bytes_lem}
use dklibrary.Stream.Codec.{put_string, put_scalar}
use dklibrary.Tests.Data.{zeroed, state_of, small, small-IsValid}

next_pow2_65 : next_pow2 65 ≡ 128
unfolding next_pow2
next_pow2_65 = refl

greeting : Stream
greeting = state_of ((put_string (72 ∷ 105 ∷ []) >> put_scalar 2 513) (create_stream 0))

greeting_bytes : contents greeting ≡ contents small
unfolding greeting put_string put_scalar create_stream write
greeting_bytes = refl

write_lem_example :
    (t : Stream) × (write (7 ∷ 8 ∷ 9 ∷ []) small ≡ returns tt t) × Appended small (7 ∷ 8 ∷ 9 ∷ []) t
write_lem_example = write_lem small (7 ∷ 8 ∷ 9 ∷ []) small-IsValid (omega arith)

read_bytes_lem_example :
    ((3 ≤ length (contents small))
      × ((t : Stream) × (read_bytes 3 small ≡ returns (take 3 (contents small)) t)
          × Consumed small 3 t))
    ⊎ ((length (contents small) < 3)
        × (read_bytes 3 small ≡ throws (stream_exception "Stream buffer underflow") small))
read_bytes_lem_example = read_bytes_lem small 3 small-IsValid

stream_of_lem_example :
    (t : Stream) × (stream_of (7 ∷ 8 ∷ []) ≡ returns tt t) × IsValid t × (contents t ≡ 7 ∷ 8 ∷ [])
stream_of_lem_example = stream_of_lem (7 ∷ 8 ∷ []) (omega arith)
