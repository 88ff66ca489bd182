-- ===== src/Stream/Shared/Refining.antt =====
-- Streams that share blocks, against streams that own their bytes: each operation does to the
-- readable bytes what it would do if nothing were shared.
mod Keeping
mod Steps
mod Runs
pub use Keeping.{IsSound}
unfoldable pub use Steps.*
pub use Runs.*
