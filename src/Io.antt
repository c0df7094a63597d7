-- ===== src/Io.antt =====
-- The parts of `std::io` and `std::fs` that the program uses.
mod Stream
mod FileOps
mod Copy
pub mod Laws
pub mod Seeking
pub mod Exact
pub mod Copied
pub use Stream.*
unfoldable pub use FileOps.*
unfoldable pub use Copy.*
