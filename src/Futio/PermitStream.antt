-- ===== src/Futio/PermitStream.antt =====
-- `PermitBodyImage` of body-image-futio/src/stream.rs.
pub mod Permitted
pub mod Whole
use body_image.Common.{ℕ, Bool, if◌then◌else◌, Option, none, some, Outcome, ok, err, panic, hang}
use body_image.Common.Exec.{Exec}
use body_image.Io.{IoError}
use body_image.Storage.{Storage}
use body_image.Image.{BodyImage}
use body_image.Futio.Crates.{Runtime, Poll, ready, pending, Answer, granted, canceled, not_yet}
use body_image.Futio.Arbiter.{Blocking, StatefulArbiter, stateful_arbiter, set, is_pending, is_void}
use body_image.Futio.Tune.{FutioTunables, blocking_semaphore}
use body_image.Futio.Buf.{OutputBuf}
use body_image.Futio.Stream.{AsyncBodyImage, new_stream, poll_impl, size_hint, is_end_stream}

module _ ⦃st : Storage⦄ ⦃rt : Runtime⦄ where
  open rt use {
    Semaphore, PermitFuture, Permit, blocking_permit_future, poll_permit, run, canceled_error,
  }

  pub record PermitBodyImage : Type 0 where
    pub image : AsyncBodyImage StatefulArbiter
    pub permit : Option PermitFuture

  unfoldable pub new_permit_stream : BodyImage → FutioTunables → PermitBodyImage
  unfolding new_stream
  new_permit_stream b t = record { image = new_stream b t; permit = none }

  abbrev pub permit_size_hint : PermitBodyImage → ℕ
  permit_size_hint s = size_hint s.image

  abbrev pub permit_is_end : PermitBodyImage → Bool
  permit_is_end s = is_end_stream s.image

  module _ (B : Type 0) where
    abbrev pub PermitPolling : Type 0
    PermitPolling = Exec PermitBodyImage IoError (Poll (Option B))

    -- `debug_assert_eq!(… state(), Blocking::Void)`, then the answer.
    abbrev pub checked_item : Outcome IoError (Poll (Option B)) → PermitPolling
    checked_item res s = if is_void s.image.arbiter.state then (res, s) else (panic, s)

    module _ ⦃ob : OutputBuf B⦄ where
      -- With the permit: one blocking read is allowed, and run under it.
      unfoldable pub poll_permitted : ℕ → Permit → PermitPolling
      unfolding poll_impl
      poll_permitted fuel p s =
          let allowed = record s.image { arbiter = set Blocking.once s.image.arbiter } in
          let (res, image) = run p (λ _. poll_impl fuel allowed) in
          checked_item res (record s { image = image })

      abbrev pub item_answered : ℕ → Answer Permit → PermitFuture → PermitPolling
      item_answered fuel (granted p) pf s = poll_permitted fuel p (record s { permit = none })
      item_answered fuel (canceled c) pf s = (err (canceled_error c), record s { permit = some pf })
      item_answered fuel not_yet pf s = (ok pending, record s { permit = some pf })

      -- The branch for a permit that was asked for.
      unfoldable pub poll_waiting : ℕ → PermitFuture → PermitPolling
      unfolding poll_permitted
      poll_waiting fuel pf s = let (a, pf') = poll_permit pf in item_answered fuel a pf' s

      -- The new future is polled at once, by the recursive call of the source.
      abbrev pub ask_to_read : ℕ → Option Semaphore → PermitPolling
      ask_to_read fuel none s = (panic, s)
      ask_to_read fuel (some sema) s = poll_waiting fuel (blocking_permit_future sema) s

      abbrev pub ask_when_pending : ℕ → Outcome IoError (Poll (Option B)) → PermitPolling
      ask_when_pending fuel (ok pending) s =
          if is_pending s.image.arbiter.state
          then ask_to_read fuel (blocking_semaphore s.image.tune) s
          else (ok pending, s)
      ask_when_pending fuel r s = (r, s)

      abbrev pub poll_by : ℕ → Option PermitFuture → PermitPolling
      poll_by fuel (some pf) s = poll_waiting fuel pf s
      poll_by fuel none s =
          let (res, image) = poll_impl fuel s.image in
          ask_when_pending fuel res (record s { image = image })

      -- Also `poll_data`.
      unfoldable pub permit_poll_next : ℕ → PermitPolling
      unfolding poll_waiting
      permit_poll_next fuel s = poll_by fuel s.permit s
