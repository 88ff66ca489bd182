-- ===== src/Singleton.antt =====
-- LibraryBase/Singleton.h: the pointer to the one object of a class. The state is `singleton`, none
-- for nullptr; an object is named by a number, its address.
pub mod Lifetime
use dklibrary.Common.{
  ℕ, Bool, true, false, Option, none, some, M, Outcome, returns, throws, assertion,
}

-- T* singleton, and DKSINGLETON
abbrev pub Instance : Type 0
Instance = Option ℕ

abbrev pub no_instance : Instance
no_instance = none

-- The constructor and the destructor, of the object at `this`.
unfoldable pub construct : ℕ → M Instance (Unit {0})
construct this none = returns tt (some this)
construct this (some other) = throws assertion (some other)

unfoldable pub destruct : M Instance (Unit {0})
destruct none = throws assertion none
destruct (some object) = returns tt none

-- GetInstancePtr and GetInstance
abbrev pub get_instance_ptr : Instance → Instance
get_instance_ptr singleton = singleton

unfoldable pub get_instance : M Instance ℕ
get_instance none = throws assertion none
get_instance (some object) = returns object (some object)
