-- ===== src/Options.antt =====
-- LibraryNet/Options.h: the flags that travel with a message, in one uint8_t.
pub mod Flags
use Prim.Native.Nat.{bit_and, bit_or}
use dklibrary.Common.{ℕ, ◌-◌, ◌%◌, ◌==◌, Bool, true, false, not, if◌then◌else◌}

pub record Send : Type 0 where
  pub options : ℕ

-- The three flags, each with a getter and a setter of its name.
pub data Flag : Type 0 where
  encrypted : Flag
  compressed : Flag
  multi : Flag

-- PACKET_OPTION_ENCRYPTED, PACKET_OPTION_COMPRESSED, PACKET_OPTION_MULTI
abbrev pub mask : Flag → ℕ
mask encrypted = 0x01
mask compressed = 0x02
mask multi = 0x04

abbrev pub no_options : Send
no_options = record { options = 0 }

-- encrypted(), compressed() and multi()
unfoldable pub is_set : Flag → Send → Bool
is_set f s = not (bit_and s.options (mask f) == 0)

-- encrypted(bool), compressed(bool) and multi(bool). `~mask` is an int; `&=` keeps its low byte.
unfoldable pub set : Flag → Bool → Send → Send
set f value s =
    if value
    then record s { options = bit_or s.options (mask f) % 256 }
    else record s { options = bit_and s.options (255 - mask f) }

-- saveTo and loadFrom
unfoldable pub save_to : Send → ℕ
save_to s = s.options

unfoldable pub load_from : ℕ → Send → Send
load_from options s = record s { options = options }
