-- ===== src/Common/Effects.antt =====
-- Exceptions and failed assertions as values, over a state that keeps what was done before them.
use Prim.Native.String.{String}
use mathlib.Core.Path.{◌≡◌}
use mathlib.Core.Option.{Option, none, some}
use mathlib.Core.Bool.{Bool, true, false}

-- `assertion` is a failed `assert`, `undefined` an access that C++ leaves undefined, and `stuck` a
-- loop of the model that ran out of fuel; `out_of_range` is the exception of std::string::substr; the
-- others are the exception classes with their messages.
pub data Fault : Type 0 where
  assertion : Fault
  undefined : Fault
  stuck : Fault
  stream_exception : String → Fault
  tcp_exception : String → Fault
  out_of_range : Fault

-- what() of the classes that derive from Exception: the message that each is made with.
abbrev pub what : Fault → Option String
what (stream_exception message) = some message
what (tcp_exception message) = some message
what _ = none

-- StreamException without an argument
abbrev pub default_message : String
default_message = "Stream exception"

pub data Outcome (S A : Type 0) : Type 0 where
  returns : A → S → Outcome S A
  throws : Fault → S → Outcome S A

abbrev pub M : Type 0 → Type 0 → Type 0
M S A = S → Outcome S A

infixl 5 ◌>>=◌ ◌>>◌
abbrev pub ◌>>=◌ : {S A B : Type 0} → M S A → (A → M S B) → M S B
◌>>=◌ m f s = elim (m s) [ returns a s' ↦ f a s' | throws e s' ↦ throws e s' ]

abbrev pub ◌>>◌ : {S A B : Type 0} → M S A → M S B → M S B
m >> k = m >>= λ _. k

abbrev pub ret : {S A : Type 0} → A → M S A
ret a s = returns a s

abbrev pub raise : {S A : Type 0} → Fault → M S A
raise e s = throws e s

-- A change of state that cannot fail.
abbrev pub modify : {S : Type 0} → (S → S) → M S (Unit {0})
modify f s = returns tt (f s)

abbrev pub reads : {S A : Type 0} → (S → A) → M S A
reads f s = returns (f s) s

abbrev pub check : {S : Type 0} → Bool → M S (Unit {0})
check true s = returns tt s
check false s = throws assertion s

-- What a call that returns leaves for the rest of the block.
pub >>=-returns :
    {S A B : Type 0} (m : M S A) (f : A → M S B) (s : S) {a : A} {t : S}
    → m s ≡ returns a t
    → (m >>= f) s ≡ f a t
>>=-returns m f s h = rw (◌>>=◌, h)
