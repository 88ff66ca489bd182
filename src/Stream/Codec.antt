-- ===== src/Stream/Codec.antt =====
-- The operators << and >> of LibraryBase/Stream.h. A scalar is its bit pattern, an unsigned number,
-- stored little-endian; its size in bytes is sizeof(T). What a failed read leaves in the variable
-- that is read into is not modelled.
pub mod Laws
pub mod Scalar
pub mod Text
pub mod Sequence
pub mod Dictionary
pub mod Truncated
use dklibrary.Common.{
  ℕ, zero, suc, ◌+◌, ◌*◌, ◌/◌, ◌%◌, ◌^◌, min, ltb, if◌then◌else◌, Bool, Option, none, some, List,
  [], ◌∷◌, length, take, drop, M, ret, raise, reads, ◌>>=◌, ◌>>◌, stream_exception,
}
use dklibrary.StreamBuf.{Memory}
use dklibrary.Stream.{Stream, readable_size, write, read_bytes, consume}

-- What << and >> do at a type.
pub record Codec (A : Type 0) : Type 0 where
  pub put : A → M Stream (Unit {0})
  pub get : M Stream A

abbrev pub le_bytes : ℕ → ℕ → List ℕ
le_bytes zero v = []
le_bytes (suc width) v = v % 256 ∷ le_bytes width (v / 256)

abbrev pub of_le_bytes : List ℕ → ℕ
of_le_bytes [] = 0
of_le_bytes (b ∷ bs) = b + 256 * of_le_bytes bs

-- static_cast<uint32_t>
abbrev pub to_u32 : ℕ → ℕ
to_u32 n = n % 2 ^ 32

unfoldable pub get_scalar : ℕ → M Stream ℕ
get_scalar width = do values ← read_bytes width; ret (of_le_bytes values)

unfoldable pub get_string : M Stream (List ℕ)
get_string = do
  len ← get_scalar 4
  available ← reads readable_size
  if ltb available len
      then raise (stream_exception "Stream exception")
      else (do text ← reads (λ s. take len (drop s.read s.buf.bytes)); consume len; ret text)

-- The loop over the container that `resize` has made.
unfoldable pub get_all : {A : Type 0} → M Stream A → ℕ → M Stream (List A)
get_all get zero = ret []
get_all get (suc n) = do value ← get; values ← get_all get n; ret (value ∷ values)

-- readSeqContainer
unfoldable pub get_seq : {A : Type 0} → M Stream A → M Stream (List A)
get_seq get = do
  size ← get_scalar 4
  available ← reads readable_size
  get_all get (min size available)

-- An unordered_map is what it answers for each key; `values[key] = value` sets one answer.
abbrev pub Dict : Type 0 → Type 0 → Type 0
Dict K V = K → Option V

module _ {K V : Type 0} (same : K → K → Bool) where
  abbrev pub assign : K → V → Dict K V → Dict K V
  assign key value m k = if same key k then some value else m k

  unfoldable pub get_entries : M Stream K → M Stream V → ℕ → Dict K V → M Stream (Dict K V)
  get_entries get_key get_value zero m = ret m
  get_entries get_key get_value (suc n) m = do
    key ← get_key
    value ← get_value
    get_entries get_key get_value n (assign key value m)

  unfoldable pub get_map : M Stream K → M Stream V → M Stream (Dict K V)
  get_map get_key get_value = do size ← get_scalar 4; get_entries get_key get_value size (λ _. none)

module _ ⦃memory : Memory⦄ where
  unfoldable pub put_scalar : ℕ → ℕ → M Stream (Unit {0})
  put_scalar width value = write (le_bytes width value)

  unfoldable pub put_string : List ℕ → M Stream (Unit {0})
  put_string text = do put_scalar 4 (to_u32 (length text)); write (take (to_u32 (length text)) text)

  unfoldable pub put_all : {A : Type 0} → (A → M Stream (Unit {0})) → List A → M Stream (Unit {0})
  put_all put [] = ret tt
  put_all put (value ∷ values) = do put value; put_all put values

  -- writeSeqContainer
  unfoldable pub put_seq : {A : Type 0} → (A → M Stream (Unit {0})) → List A → M Stream (Unit {0})
  put_seq put values = do put_scalar 4 (to_u32 (length values)); put_all put values

  -- The entries in the order of the map's iterator.
  unfoldable pub put_map :
      {K V : Type 0}
      → (K → M Stream (Unit {0}))
      → (V → M Stream (Unit {0}))
      → List (K × V)
      → M Stream (Unit {0})
  put_map put_key put_value entries = do
    put_scalar 4 (to_u32 (length entries))
    put_all (λ e. put_key e.0 >> put_value e.1) entries

  abbrev pub scalar : ℕ → Codec ℕ
  scalar width = record { put = put_scalar width; get = get_scalar width }

  abbrev pub string : Codec (List ℕ)
  string = record { put = put_string; get = get_string }

  abbrev pub seq : {A : Type 0} → Codec A → Codec (List A)
  seq c = record { put = put_seq c.put; get = get_seq c.get }
