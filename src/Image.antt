-- ===== src/Image.antt =====
-- body-image/src/lib.rs: bodies in RAM or in a file, and their size limits.
mod Errors
mod Sink
mod State
mod Recording
pub mod Tune
pub mod Content
pub mod Prepared
pub mod Emitted
pub mod Gathered
pub mod ReadFrom
pub use Errors.*
unfoldable pub use Sink.*
unfoldable pub use State.*
pub use Recording.*
