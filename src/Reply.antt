-- ===== src/Reply.antt =====
-- The reply format.
mod Defs
mod Append
unfoldable pub use Defs.*
pub use Append.*
