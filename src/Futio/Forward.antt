-- ===== src/Futio/Forward.antt =====
-- What a client gets from each of the three asynchronous sinks, from its making on.
use body_image.Common.{◌+◌, ◌<◌, ◌≤◌, ◌^◌, ◌≡◌, refl, ◌++◌, length, append-nil, true, some}
use body_image.Io.{Bytes, IoError, interrupted}
use body_image.Storage.{Storage}
use body_image.Image.{BodySink, is_ram}
use body_image.Image.Content.{Holds, MakesFiles}
use body_image.Futio.{
  Runtime, LenientArbiter, lenient_arbiter, stateful_arbiter, BlockingArbiter, FutioTunables,
  blocking_semaphore, AsyncBodySink, new_sink, poll_flush_impl, PermitBodySink, new_permit_sink,
  permit_poll_flush, DispatchBodySink, new_dispatch_sink, dispatch_poll_flush,
}
use body_image.Futio.Sink.Direct.{Carries, direct_ops, direct-Contract}
use body_image.Futio.Permit.Fulfils.{Runs, permit_ops, permit-Contract}
use body_image.Futio.Dispatch.Fulfils.{Dispatches, dispatch_ops, dispatch-Contract}
use body_image.Futio.Contract.{Drives, Drives-Delivers, Delivers}

-- A body within the limits of the tunables.
pub record Fits ⦃rt : Runtime⦄ (P : IoError → Type 0) (t : FutioTunables) (b : BodySink)
    (pre : Bytes) : Type 0 where
  pub holds : Holds P b pre
  pub bounded : length pre ≤ t.image.max_body
  pub in_ram : is_ram b ≡ true → length pre ≤ t.image.max_body_ram

module _ ⦃rt : Runtime⦄ ⦃st : Storage⦄ (P : IoError → Type 0) (t : FutioTunables) where
  module _ (makes : MakesFiles P st) (quiet : P interrupted → ⊥) (b : BodySink) (pre sent : Bytes)
      (fit : Fits P t b pre) (fits : length pre + length sent < 2 ^ 64) where
    new-Carries : {BA : Type 0} ⦃ba : BlockingArbiter BA⦄ → Carries P t (new_sink {BA = BA} b t) pre
    unfolding new_sink
    new-Carries = record {
      done = pre;
      within = record { holds = fit.holds; bounded = fit.bounded; in_ram = fit.in_ram };
      whole = append-nil pre;
      tuned = refl;
    }

    -- If temporary files are new and empty and no write is reported as interrupted: after any
    -- successful sends and flushes of a plain asynchronous sink over a body within the limits,
    -- the next flush never panics. If it is ready, `into_inner` gives a body that holds the bytes
    -- it began with and behind them those that were sent, in order, within `max_body`, and within
    -- `max_body_ram` if it is in RAM. If it fails, the bytes are more than `max_body` and it
    -- names their number, or the file system failed.
    pub direct_forward :
        (s : AsyncBodySink LenientArbiter)
        → Drives direct_ops (new_sink b t) sent s
        → let (r, s') = poll_flush_impl s in
          Delivers P (λ _. ⊥) t.image direct_ops (pre ++ sent) r s'
    direct_forward s d =
        Drives-Delivers P (λ _. ⊥) t.image (direct-Contract P t (λ _. ⊥) makes quiet) (new_sink b t)
          s pre sent new-Carries fits d

    -- If temporary files are new and empty, no write is reported as interrupted, a semaphore is
    -- set in the tunables and permits run what they are given: after any successful sends and
    -- flushes of a sink with permits over a body within the limits, the next flush never panics,
    -- so that its assertion on the arbiter holds after each operation under a permit. If it is
    -- ready, `into_inner` gives a body that holds the bytes it began with and behind them those
    -- that were sent, in order, within `max_body`, and within `max_body_ram` if it is in RAM. If
    -- it fails, the bytes are more than `max_body`, the file system failed, or the permit was
    -- canceled.
    pub permit_forward :
        (sema : rt.Semaphore)
        → blocking_semaphore t ≡ some sema
        → Runs rt
        → (s : PermitBodySink) → Drives permit_ops (new_permit_sink b t) sent s
        → let (r, s') = permit_poll_flush s in
          Delivers P (λ _. Unit) t.image permit_ops (pre ++ sent) r s'
    unfolding new_permit_sink new_sink
    permit_forward sema given runs s d =
        Drives-Delivers P (λ _. Unit) t.image
          (permit-Contract P t (λ _. Unit) makes quiet runs (λ _. tt) sema given)
          (new_permit_sink b t) s pre sent
          (record {
            carries = new-Carries;
            blocked = λ asked. absurd (asked refl);
            unallowed = refl;
          })
          fits d

    -- If temporary files are new and empty, no write is reported as interrupted, a pool is
    -- registered and its futures give what the dispatched function returns: after any successful
    -- sends and flushes of a sink that dispatches its blocking operations, over a body within the
    -- limits, the next flush never panics. If it is ready, `into_inner` gives a body that holds
    -- the bytes it began with and behind them those that were sent, in order, within `max_body`,
    -- and within `max_body_ram` if it is in RAM. If it fails, the bytes are more than `max_body`,
    -- the file system failed, or the dispatched operation was canceled.
    pub dispatch_forward :
        Dispatches rt
        → (s : DispatchBodySink) → Drives dispatch_ops (new_dispatch_sink b t) sent s
        → let (r, s') = dispatch_poll_flush s in
          Delivers P (λ _. Unit) t.image dispatch_ops (pre ++ sent) r s'
    unfolding new_dispatch_sink new_sink
    dispatch_forward pool s d =
        Drives-Delivers P (λ _. Unit) t.image
          (dispatch-Contract P (λ _. Unit) t pool (λ _. tt) makes quiet) (new_dispatch_sink b t) s
          pre sent (new-Carries, refl) fits d
