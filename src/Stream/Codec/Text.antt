-- ===== src/Stream/Codec/Text.antt =====
-- std::string through << and >>.
use dklibrary.Common.{
  ℕ, ◌+◌, ◌^◌, ◌<◌, ◌≤◌, ◌≡◌, refl, ap, ◌∙◌, arith, List, ◌++◌, length, take, drop, ◌>>=◌, ◌>>◌,
  append_assoc, length-append, take_all, take-append_exact, false, ltb, ge→ltb,
}
use dklibrary.StreamBuf.{Memory, max_alloc}
use dklibrary.Stream.{Stream, write, readable_size}
use dklibrary.Stream.Valid.{IsValid, contents, length-contents}
use dklibrary.Stream.Writing.{write_lem}
use dklibrary.Stream.Reading.{take-contents}
use dklibrary.Stream.Codec.{le_bytes, to_u32, put_scalar, get_string, put_string, string}
use dklibrary.Stream.Codec.Laws.{IsCodec, Puts, Gets, consume_front, Puts-then}
use dklibrary.Stream.Codec.Scalar.{get_scalar-front, scalar-IsCodec}

-- The wire form: the length as a uint32_t, then the characters.
abbrev pub string_wire : List ℕ → List ℕ
string_wire text = le_bytes 4 (length text) ++ text

pub readable_size_lem : (s : Stream) → IsValid s → readable_size s ≡ length (contents s)
readable_size_lem s v = omega (arith, length-contents s v)

get_string-front :
    (text rest : List ℕ) (s : Stream)
    → length text < 2 ^ 32
    → IsValid s
    → contents s ≡ string_wire text ++ rest
    → Gets get_string s text rest
unfolding get_string
get_string-front text rest s h v e =
    let n = length text in
    let e' = e ∙ append_assoc (le_bytes 4 n) text rest in
    let (t, ran, vt, et) = get_scalar-front s 4 n (text ++ rest) (omega arith) v e' in
    let available : n ≤ length (contents t) =
      omega (arith, ap length et, length-append text rest) in
    let (u, ran', vu, eu) = consume_front t n text rest refl vt et in
    let text_read : take n (drop t.read t.buf.bytes) ≡ text =
      take-contents t n vt available ∙ ap (take n) et ∙ take-append_exact text rest in
    let enough : ltb (readable_size t) n ≡ false =
      ge→ltb (readable_size t) n (omega (arith, readable_size_lem t vt)) in
    (u, rw (ran, ◌>>=◌, enough, ◌>>◌, ran', text_read), vu, eu)

module _ ⦃memory : Memory⦄ where
  put_string-Puts :
      (text : List ℕ) (s : Stream)
      → length text < 2 ^ 32
      → IsValid s
      → s.written + length (string_wire text) ≤ max_alloc
      → Puts (put_string text) s (string_wire text)
  unfolding put_string
  put_string-Puts text s h v room =
      let n = length text in
      let total = length-append (le_bytes 4 n) text in
      let whole : to_u32 n ≡ n = omega arith in
      let sent : take n text ≡ text = take_all n text (omega arith) in
      rw (whole, sent)
        (Puts-then (put_scalar 4 n) (write text) s (le_bytes 4 n) text
          ((scalar-IsCodec 4).put_lem n s (omega arith) v (omega (arith, total)))
          (λ t f. write_lem t text f.valid (omega (arith, total, f.advanced))))

  -- A string of fewer than 2 ^ 32 characters comes back from the stream.
  pub string-IsCodec : IsCodec string (λ text. length text < 2 ^ 32) string_wire
  string-IsCodec = record {
    put_lem = λ text s h v room. put_string-Puts text s h v room;
    get_lem = λ text rest s h v e. get_string-front text rest s h v e;
  }
