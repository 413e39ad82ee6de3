-- ===== src/Buffer.antt =====
-- The byte buffer and the serialization of replies: inc/server/buffer.h, lib/server/buffer.cpp.
mod Defs
mod Patch
unfoldable pub use Defs.*
pub use Patch.*
