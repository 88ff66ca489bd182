-- ===== src/Encoder/Null.antt =====
-- NullEncoder of LibraryNet/TCPService.h.
use dklibrary.Common.{ℕ, ◌≡◌, refl, ap, ◌∙◌, arith, none, List, ◌++◌, length, ret, length-append}
use dklibrary.Encoder.{Coding, encoder_t}
use dklibrary.Encoder.Contract.{IsCoding}

-- sizeof(NullPacketHeader): an empty struct takes one byte.
abbrev pub null_header_size : ℕ
null_header_size = 1

abbrev pub null_encoder : Coding
null_encoder = encoder_t null_header_size (λ options. ret tt) (ret tt) (λ size. none)

-- The payload is the plain content behind one byte that nobody sets.
abbrev pub NullSealed : List ℕ → List ℕ → Type 0
NullSealed plain payload = (header : List ℕ) × (length header ≡ 1) × (payload ≡ header ++ plain)

-- The encoder that encodes nothing meets the contract, with a header of one byte.
pub null_encoder-IsCoding : IsCoding null_encoder NullSealed
null_encoder-IsCoding = record {
  seal = λ options s header plain len f. (s, header ++ plain, refl, f, (header, len, refl));
  unseal = λ s plain payload sealed v e. (s, sealed.0, refl, v, e ∙ sealed.2, sealed.1);
  sealed_size = λ plain payload sealed.
      omega (arith, sealed.1, ap length sealed.2, length-append sealed.0 plain);
  small_header = omega arith;
}
