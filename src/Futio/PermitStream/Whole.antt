-- ===== src/Futio/PermitStream/Whole.antt =====
-- A stream with permits over a prepared image, polled again and again.
use body_image.Common.{ℕ, ◌<◌, ◌^◌, ◌≡◌, refl, length, some}
use body_image.Io.{Bytes, IoError}
use body_image.Io.Laws.{Serves}
use body_image.Storage.{Storage}
use body_image.Image.{BodyImage}
use body_image.Image.Prepared.{ImageHolds}
use body_image.Futio.Crates.{Runtime}
use body_image.Futio.Arbiter.{stateful_arbiter}
use body_image.Futio.Tune.{FutioTunables, blocking_semaphore}
use body_image.Futio.Buf.{OutputBuf}
use body_image.Futio.Buf.Outputs.{OutputLaws}
use body_image.Futio.Polls.{PollsTo, Continues, PollsTo-Continues}
use body_image.Futio.Stream.{new_stream}
use body_image.Futio.Stream.Whole.{Slices, new-Left}
use body_image.Futio.Permit.Fulfils.{Runs}
use body_image.Futio.PermitStream.{PermitBodyImage, new_permit_stream, permit_poll_next}
use body_image.Futio.PermitStream.Permitted.{PermitLeft, permit_poll-Gives}

module _ ⦃st : Storage⦄ ⦃rt : Runtime⦄ (P : IoError → Type 0) (sv : Serves P st.slice_read)
    (fuel : ℕ) (t : FutioTunables) {B : Type 0} ⦃ob : OutputBuf B⦄ (laws : OutputLaws P ob)
    (runs : Runs rt) (cancels : (c : ℕ) → P (rt.canceled_error c)) (sema : rt.Semaphore)
    (granting : blocking_semaphore t ≡ some sema) where
  -- Let an image hold `all`, fewer than 2 ^ 64 bytes, in RAM or in a file, with a slice of a file
  -- serving its range, fuel for more reads than it will interrupt, and a positive buffer size, with
  -- a semaphore in the tunables and permits that run what they are given. However often a stream
  -- with permits over the image has been polled, what its items hold is the front of `all`. The
  -- next poll gives what follows there, or ends the stream when `all` is out and not before, or
  -- waits, or reports an error of the file or that the permit was canceled. It never panics, so
  -- that its assertion on the arbiter holds after each read under a permit.
  pub permit_stream-GoesOn :
      (i : BodyImage) (all given : Bytes) (s : PermitBodyImage)
      → Slices P sv fuel
      → ImageHolds i all
      → length all < 2 ^ 64
      → 0 < t.image.buffer_size_fs
      → PollsTo (permit_poll_next B fuel) (new_permit_stream i t) given s
      → Continues P all given (permit_poll_next B fuel s).0
  unfolding new_permit_stream new_stream
  permit_stream-GoesOn i all given s slices h fits pos y =
      let start : PermitLeft P sv fuel t (new_permit_stream i t) all = record {
        left = new-Left P sv fuel laws i t all slices h fits pos;
        asks = λ asked. absurd (asked refl);
        unallowed = refl;
        tuned = refl;
      } in
      PollsTo-Continues P (PermitLeft P sv fuel t) (permit_poll_next B fuel)
        (permit_poll-Gives P sv fuel t laws runs cancels sema granting) (new_permit_stream i t) s
        all given start y
