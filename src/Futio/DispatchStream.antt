-- ===== src/Futio/DispatchStream.antt =====
-- `DispatchBodyImage` of body-image-futio/src/stream.rs.
pub mod Dispatched
pub mod Whole
use body_image.Common.{ℕ, Bool, false, if◌then◌else◌, Option, none, some, Outcome, ok, err, panic}
use body_image.Common.Exec.{Exec}
use body_image.Io.{IoError}
use body_image.Storage.{Storage}
use body_image.Image.{BodyImage}
use body_image.Futio.Crates.{Runtime, Poll, pending, Answer, granted, canceled, not_yet}
use body_image.Futio.Arbiter.{Blocking, StatefulArbiter, stateful_arbiter, set, is_pending, is_void}
use body_image.Futio.Tune.{FutioTunables}
use body_image.Futio.Buf.{OutputBuf}
use body_image.Futio.Stream.{AsyncBodyImage, new_stream, poll_impl, is_end_stream}

module _ ⦃st : Storage⦄ ⦃rt : Runtime⦄ where
  open rt use {Dispatched, dispatch_rx, poll_dispatched, canceled_error}

  module _ (B : Type 0) where
    abbrev pub ReadReturn : Type 0
    ReadReturn = Outcome IoError (Poll (Option B)) × AsyncBodyImage StatefulArbiter

    -- `absent` is `Image(None)`, which a panic while dispatching leaves.
    pub data DispatchState : Type 0 where
      image : AsyncBodyImage StatefulArbiter → DispatchState
      absent : DispatchState
      reading : Dispatched ReadReturn → DispatchState

    pub record DispatchBodyImage : Type 0 where
      pub state : DispatchState
      pub len : ℕ

    abbrev pub DispatchPolling : Type 0
    DispatchPolling = Exec DispatchBodyImage IoError (Poll (Option B))

  module _ {B : Type 0} where
    unfoldable pub new_dispatch_stream : BodyImage → FutioTunables → DispatchBodyImage B
    unfolding new_stream
    new_dispatch_stream b t = record { state = image (new_stream b t); len = b.len }

    abbrev pub dispatch_size_hint : DispatchBodyImage B → ℕ
    dispatch_size_hint s = s.len

    -- `is_end_stream`: an absent image is unwrapped.
    abbrev pub dispatch_is_end : DispatchState B → Outcome IoError Bool
    dispatch_is_end (image s) = ok (is_end_stream s)
    dispatch_is_end absent = panic
    dispatch_is_end (reading d) = ok false

    -- The dispatched read has ended: `debug_assert_eq!`, and the image comes back.
    abbrev pub image_back : ReadReturn B → Dispatched (ReadReturn B) → DispatchPolling B
    image_back (res, ob) d s =
        if is_void ob.arbiter.state
        then (res, record s { state = image ob })
        else (panic, record s { state = reading d })

    abbrev pub read_returned : Answer (ReadReturn B) → Dispatched (ReadReturn B) → DispatchPolling B
    read_returned (granted ret) d s = image_back ret d s
    read_returned (canceled c) d s = (err (canceled_error c), record s { state = reading d })
    read_returned not_yet d s = (ok pending, record s { state = reading d })

    unfoldable pub poll_reading : Dispatched (ReadReturn B) → DispatchPolling B
    poll_reading d s = let (a, d') = poll_dispatched d in read_returned a d' s

    -- The new future is polled at once, by the recursive call of the source.
    abbrev pub read_on_pool : Option (Dispatched (ReadReturn B)) → DispatchPolling B
    read_on_pool none s = (panic, record s { state = absent })
    read_on_pool (some d) s = poll_reading d (record s { state = reading d })

    module _ ⦃ob : OutputBuf B⦄ where
      -- One blocking read is allowed, on a thread of the pool.
      unfoldable pub dispatch_read : ℕ → AsyncBodyImage StatefulArbiter → DispatchPolling B
      unfolding poll_reading poll_impl
      dispatch_read fuel s =
          read_on_pool
            (dispatch_rx (λ _. poll_impl fuel (record s { arbiter = set Blocking.once s.arbiter })))

      abbrev pub dispatch_when_pending :
          ℕ → Outcome IoError (Poll (Option B)) → AsyncBodyImage StatefulArbiter → DispatchPolling B
      dispatch_when_pending fuel (ok pending) i s =
          if is_pending i.arbiter.state
          then dispatch_read fuel i s
          else (ok pending, record s { state = image i })
      dispatch_when_pending fuel r i s = (r, record s { state = image i })

      abbrev pub poll_in : ℕ → DispatchState B → DispatchPolling B
      poll_in fuel (image i) s =
          let (res, i') = poll_impl fuel i in dispatch_when_pending fuel res i' s
      poll_in fuel absent s = (panic, s)
      poll_in fuel (reading d) s = poll_reading d s

      -- Also `poll_data`.
      unfoldable pub dispatch_poll_next : ℕ → DispatchPolling B
      unfolding dispatch_read poll_impl
      dispatch_poll_next fuel s = poll_in fuel s.state s
