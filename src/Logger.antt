-- ===== src/Logger.antt =====
-- LibraryBase/Logger.h and .cpp: what is logged goes to one callback.
pub mod Callbacks
use dklibrary.Common.{
  ℕ, Bool, true, false, if◌then◌else◌, List, [], ◌∷◌, ◌++◌, Option, none, some, M, Outcome, returns,
  throws, out_of_range,
}
use dklibrary.Utils.{log_prefix}

pub data LogLevel : Type 0 where
  trace : LogLevel
  debug : LogLevel
  info : LogLevel
  warning : LogLevel
  error : LogLevel
  fatal : LogLevel

-- A call of a callback, which is named by a number.
pub record Logged : Type 0 where
  pub callback : ℕ
  pub level : LogLevel
  pub text : List ℕ

-- m_callback, none for nullptr, with the calls that were made.
pub record Logger : Type 0 where
  pub callback : Option ℕ
  pub calls : List Logged

abbrev pub no_logger : Logger
no_logger = record { callback = none; calls = [] }

unfoldable pub set_callback : Option ℕ → Logger → Logger
set_callback callback l = record l { callback = callback }

-- log, on the thread whose id has the hash `thread`.
unfoldable pub log : ℕ → LogLevel → List ℕ → List ℕ → ℕ → List ℕ → M Logger (Unit {0})
log thread level func file line message l = elim l.callback [
  | none ↦ returns tt l
  | some c ↦ elim (log_prefix thread func file line) [
    | none ↦ throws out_of_range l
    | some prefix ↦
        let text = prefix ++ (9 ∷ message) in
        let logged : Logged = record { callback = c; level = level; text = text } in
        returns tt (record l { calls = l.calls ++ (logged ∷ []) })
  ]
]
