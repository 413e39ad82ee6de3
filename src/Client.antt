-- ===== src/Client.antt =====
-- The client: lib/client/query.cpp.
pub mod Print
pub mod Io
pub mod Send
pub mod Total
pub mod Meaning
pub mod Values
pub mod RoundTrip
pub mod Receive
pub mod Overread
