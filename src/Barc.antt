-- ===== src/Barc.antt =====
-- barc/src/lib.rs and barc/src/compress.rs: the BARC container file.
mod Errors
mod Types
mod Recorded
pub mod Format
pub mod Head
pub mod Compress
pub mod Codec
pub mod Convert
pub mod Write
pub mod Read
pub use Errors.*
unfoldable pub use Types.*
pub use Recorded.*
