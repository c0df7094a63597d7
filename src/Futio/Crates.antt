-- ===== src/Futio/Crates.antt =====
-- What body-image-futio takes from `std::task` and from the crate `blocking_permit`: parameters.
use body_image.Common.{ℕ, Done, Option}
use body_image.Io.{IoError}

-- `std::task::Poll`. A `Poll<Result<A, E>>` is an outcome: its `Ready(Err(e))` is `err e`.
pub data Poll (A : Type 0) : Type 0 where
  ready : A → Poll A
  pending : Poll A

-- What a poll of another crate's future answers: a value, that it was canceled (by a code), or
-- that it is not there yet.
pub data Answer (A : Type 0) : Type 0 where
  granted : A → Answer A
  canceled : ℕ → Answer A
  not_yet : Answer A

pub record Runtime : Type 1 where
  -- `Semaphore`, `BlockingPermitFuture` and `BlockingPermit`.
  pub Semaphore : Type 0
  pub PermitFuture : Type 0
  pub Permit : Type 0
  pub blocking_permit_future : Semaphore → PermitFuture
  pub poll_permit : PermitFuture → Answer Permit × PermitFuture
  -- The `io::Error` of a `Canceled`.
  pub canceled_error : ℕ → IoError
  pub run : {A : Type 0} → Permit → (Done → A) → A
  -- `Dispatched` and `dispatch_rx`, which gives nothing when no pool is registered.
  pub Dispatched : Type 0 → Type 0
  pub dispatch_rx : {A : Type 0} → (Done → A) → Option (Dispatched A)
  pub poll_dispatched : {A : Type 0} → Dispatched A → Answer A × Dispatched A
