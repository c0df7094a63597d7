-- ===== src/Futio.antt =====
-- body-image-futio/src: bodies as asynchronous streams and sinks.
mod Crates
mod Arbiter
mod Errors
pub mod Tune
pub mod Sink
pub mod Buf
pub mod Stream
pub mod Polls
pub mod Decode
pub mod Contract
pub mod Forward
pub mod Fetch
pub mod Permit
pub mod Dispatch
pub mod PermitStream
pub mod DispatchStream
pub use Crates.*
pub use Errors.*
unfoldable pub use Arbiter.*
unfoldable pub use Tune.*
unfoldable pub use Sink.*
unfoldable pub use Permit.*
unfoldable pub use Dispatch.*
