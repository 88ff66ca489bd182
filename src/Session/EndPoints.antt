-- ===== src/Session/EndPoints.antt =====
-- EndPoint of LibraryNet/TCPSession.h.
pub mod Comparing
use dklibrary.Common.{
  ℕ, ◌==◌, ◌≡◌, ◌≢◌, ◌⊎◌, inl, inr, refl, ap, arith, Bool, true, false, not, ◌&&◌, List, [], ◌∷◌,
  ◌++◌,
}
use dklibrary.Calendar.{decimal}

pub record EndPoint : Type 0 where
  pub ip : List ℕ
  pub port : ℕ

-- EndPoint()
abbrev pub no_end_point : EndPoint
no_end_point = record { ip = []; port = 0 }

-- operator== of std::string
pub same_text : List ℕ → List ℕ → Bool
same_text [] [] = true
same_text [] (c ∷ t) = false
same_text (c ∷ s) [] = false
same_text (c ∷ s) (d ∷ t) = c == d && same_text s t

-- operator== and operator!=
unfoldable pub same : EndPoint → EndPoint → Bool
unfolding same_text
same e f = same_text e.ip f.ip && e.port == f.port

unfoldable pub differs : EndPoint → EndPoint → Bool
unfolding same
differs e f = not (same e f)

-- toString
unfoldable pub to_string : EndPoint → List ℕ
to_string e = e.ip ++ (58 ∷ decimal e.port)
