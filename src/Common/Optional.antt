-- ===== src/Common/Optional.antt =====
-- An option that is there is not none, and has one value.
use mathlib.Core.Path.{◌≡◌}
use mathlib.Core.Logic.{◌≢◌}
use mathlib.Core.Option.{none, some}

module _ {ℓ} {A : Type ℓ} where
  pub none-some : (a : A) → none ≢ some a
  none-some a h = cc

  pub some_injective : (a b : A) → some a ≡ some b → a ≡ b
  some_injective a b h = cc
