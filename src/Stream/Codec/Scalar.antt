-- ===== src/Stream/Codec/Scalar.antt =====
-- Scalars through << and >>.
use dklibrary.Common.{
  ℕ, zero, suc, ◌*◌, ◌/◌, ◌^◌, ◌<◌, ◌≡◌, refl, ap, arith, List, ◌++◌, length, ◌>>=◌,
}
use native.Mathlib.Nat.{pow-suc}
use dklibrary.StreamBuf.{Memory}
use dklibrary.Stream.{Stream}
use dklibrary.Stream.Valid.{IsValid, contents}
use dklibrary.Stream.Writing.{write_lem}
use dklibrary.Stream.Codec.{le_bytes, of_le_bytes, get_scalar, put_scalar, scalar}
use dklibrary.Stream.Codec.Laws.{IsCodec, Gets, read_front}

pub length-le_bytes : (width v : ℕ) → length (le_bytes width v) ≡ width
length-le_bytes zero v = refl
length-le_bytes (suc width) v = ap suc (length-le_bytes width (v / 256))

pub of_le_bytes-le_bytes : (width v : ℕ) → v < 256 ^ width → of_le_bytes (le_bytes width v) ≡ v
of_le_bytes-le_bytes zero v h = omega arith
of_le_bytes-le_bytes (suc width) v h =
    let p : 256 ^ suc width ≡ 256 ^ width * 256 = pow-suc 256 width in
    omega (arith, of_le_bytes-le_bytes width (v / 256) (omega (arith, p)))

-- >> for a scalar, on bytes that are there.
pub get_scalar-front :
    (s : Stream) (width v : ℕ) (rest : List ℕ)
    → v < 256 ^ width
    → IsValid s
    → contents s ≡ le_bytes width v ++ rest
    → Gets (get_scalar width) s v rest
unfolding get_scalar
get_scalar-front s width v rest h valid e =
    let bytes = le_bytes width v in
    let (t, ran, valid', left) = read_front s width bytes rest (length-le_bytes width v) valid e in
    (t, rw (ran, ◌>>=◌, of_le_bytes-le_bytes width v h), valid', left)

module _ ⦃memory : Memory⦄ where
  -- A scalar that fits its width comes back from the stream.
  pub scalar-IsCodec : (width : ℕ) → IsCodec (scalar width) (λ v. v < 256 ^ width) (le_bytes width)
  unfolding put_scalar
  scalar-IsCodec width = record {
    put_lem = λ v s h valid room. write_lem s (le_bytes width v) valid room;
    get_lem = λ v rest s h valid e. get_scalar-front s width v rest h valid e;
  }
