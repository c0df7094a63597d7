-- ===== src/Futio/DispatchStream/Whole.antt =====
-- A stream that dispatches its reads over a prepared image, polled again and again.
use body_image.Common.{ℕ, ◌<◌, ◌^◌, refl, length}
use body_image.Io.{Bytes, IoError}
use body_image.Io.Laws.{Serves}
use body_image.Storage.{Storage}
use body_image.Image.{BodyImage}
use body_image.Image.Prepared.{ImageHolds}
use body_image.Futio.Crates.{Runtime}
use body_image.Futio.Arbiter.{stateful_arbiter}
use body_image.Futio.Tune.{FutioTunables}
use body_image.Futio.Buf.{OutputBuf}
use body_image.Futio.Buf.Outputs.{OutputLaws}
use body_image.Futio.Polls.{PollsTo, Continues, PollsTo-Continues}
use body_image.Futio.Stream.{new_stream}
use body_image.Futio.Stream.Whole.{Slices, new-Left}
use body_image.Futio.Dispatch.Fulfils.{Dispatches}
use body_image.Futio.DispatchStream.{DispatchBodyImage, new_dispatch_stream, dispatch_poll_next}
use body_image.Futio.DispatchStream.Dispatched.{DispatchLeft, dispatch_poll-Gives}

module _ ⦃st : Storage⦄ ⦃rt : Runtime⦄ (P : IoError → Type 0) (sv : Serves P st.slice_read)
    (fuel : ℕ) (pool : Dispatches rt) {B : Type 0} ⦃ob : OutputBuf B⦄ (laws : OutputLaws P ob)
    (cancels : (c : ℕ) → P (rt.canceled_error c)) where
  -- Let an image hold `all`, fewer than 2 ^ 64 bytes, in RAM or in a file, with a slice of a file
  -- serving its range, fuel for more reads than it will interrupt, and a positive buffer size,
  -- with a pool whose futures give what the dispatched function returns. However often a stream
  -- over the image that dispatches its reads has been polled, what its items hold is the front
  -- of `all`. The next poll gives what follows there, or ends the stream when `all` is out and
  -- not before, or waits, or reports an error of the file or that the dispatched read was
  -- canceled. It never panics, so that its assertion on the arbiter holds after each dispatched
  -- read.
  pub dispatch_stream-GoesOn :
      (i : BodyImage) (t : FutioTunables) (all given : Bytes) (s : DispatchBodyImage B)
      → Slices P sv fuel
      → ImageHolds i all
      → length all < 2 ^ 64
      → 0 < t.image.buffer_size_fs
      → PollsTo (dispatch_poll_next {B = B} fuel) (new_dispatch_stream i t) given s
      → Continues P all given (dispatch_poll_next {B = B} fuel s).0
  unfolding new_dispatch_stream new_stream
  dispatch_stream-GoesOn i t all given s slices h fits pos y =
      PollsTo-Continues P (λ s. DispatchLeft P sv fuel pool s.state) (dispatch_poll_next fuel)
        (dispatch_poll-Gives P sv fuel pool laws cancels) (new_dispatch_stream i t) s all given
        (new-Left P sv fuel laws i t all slices h fits pos, refl) y
