-- ===== src/Tests/Codecs.antt =====
-- The operators << and >> of LibraryBase/Stream.h.
use dklibrary.Common.{
  ℕ, ◌^◌, ◌<◌, ◌≡◌, refl, arith, ◌↔◌, List, [], ◌∷◌, length, returns, throws, stream_exception,
  ◌==◌, Bool, true, ==→eq, eq→==,
}
use dklibrary.Stream.{Stream}
use dklibrary.Stream.Valid.{IsValid, contents}
use dklibrary.Stream.Codec.{
  Dict, le_bytes, scalar, string, seq, get_scalar, put_scalar, get_string, get_seq, get_map,
  put_map,
}
use dklibrary.Stream.Codec.Laws.{IsCodec, Gets}
use dklibrary.Stream.Codec.Scalar.{scalar-IsCodec}
use dklibrary.Stream.Codec.Text.{string_wire, string-IsCodec}
use dklibrary.Stream.Codec.Sequence.{All, seq_wire, seq-IsCodec}
use dklibrary.Stream.Codec.Dictionary.{find, get_map-put_map}
use dklibrary.Stream.Codec.Truncated.{Underflows, truncated_lem}
use dklibrary.Tests.Data.{zeroed, blank, blank-IsValid}

string-IsCodec_example : IsCodec string (λ text. length text < 2 ^ 32) string_wire
string-IsCodec_example = string-IsCodec

two_bytes : (v : ℕ) → v < 256 ^ 2 → 0 < length (le_bytes 2 v)
two_bytes v h = omega arith

seq-IsCodec_example :
    IsCodec
      (seq (scalar 2))
      (λ xs. (length xs < 2 ^ 32) × All (λ v. v < 256 ^ 2) xs)
      (seq_wire (le_bytes 2))
seq-IsCodec_example = seq-IsCodec (λ v. v < 256 ^ 2) (le_bytes 2) (scalar-IsCodec 2) two_bytes

same_number : ℕ → ℕ → Bool
same_number a b = a == b

same_number_iff : (a b : ℕ) → (same_number a b ≡ true) ↔ (a ≡ b)
unfolding same_number
same_number_iff a b = (==→eq a b, eq→== a b)

abbrev ports : List (ℕ × ℕ)
ports = (1, 80) ∷ (2, 443) ∷ []

get_map-put_map_example :
    (t : Stream) × (u : Stream) × (m : Dict ℕ ℕ) × (put_map
        (put_scalar 2)
        (put_scalar 2)
        ports
        blank
      ≡ returns tt t)
    × (get_map same_number (get_scalar 2) (get_scalar 2) t ≡ returns m u)
    × ((k : ℕ) → m k ≡ find same_number ports k)
    × (contents u ≡ [])
unfolding same_number
get_map-put_map_example =
    get_map-put_map (λ v. v < 256 ^ 2) (λ v. v < 256 ^ 2) (le_bytes 2) (le_bytes 2)
      (scalar-IsCodec 2) (scalar-IsCodec 2) same_number same_number_iff ports blank
      (refl, (refl, tt)) (omega arith) (omega arith) blank-IsValid refl (omega arith)

-- A size field of 5 with two bytes behind it.
abbrev cut_short : Stream
cut_short = record {
  read = 0;
  written = 6;
  buf = record { size = 6; bytes = 5 ∷ 0 ∷ 0 ∷ 0 ∷ 72 ∷ 105 ∷ [] };
}

cut_short-IsValid : IsValid cut_short
cut_short-IsValid = omega arith

truncated_lem_example :
    ((t : Stream) × (get_string cut_short ≡ throws (stream_exception "Stream exception") t)
      × (contents t ≡ 72 ∷ 105 ∷ []))
    × Underflows (get_map ◌==◌ (get_scalar 1) (get_scalar 1)) cut_short
    × Gets (get_seq (get_scalar 1)) cut_short (72 ∷ 105 ∷ []) []
truncated_lem_example =
    truncated_lem ◌==◌ 1 1 cut_short 5 (72 ∷ 105 ∷ []) (omega arith) (omega arith) (omega arith)
      cut_short-IsValid refl (omega arith)
