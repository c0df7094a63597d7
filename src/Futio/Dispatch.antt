-- ===== src/Futio/Dispatch.antt =====
-- `DispatchBodySink` of body-image-futio/src/sink.rs.
pub mod Fulfils
use body_image.Common.{if◌then◌else◌, Option, none, some, Done, Outcome, ok, err, panic, hang}
use body_image.Common.Exec.{Exec}
use body_image.Io.{Bytes}
use body_image.Storage.{Storage}
use body_image.Image.{BodySink}
use body_image.Futio.Crates.{Runtime, Poll, ready, pending, Answer, granted, canceled, not_yet}
use body_image.Futio.Errors.{FutioError, op_canceled}
use body_image.Futio.Arbiter.{Blocking, StatefulArbiter, stateful_arbiter, set, is_pending, is_void}
use body_image.Futio.Tune.{FutioTunables}
use body_image.Futio.Sink.{AsyncBodySink, new_sink, send, poll_flush_impl, into_inner}

module _ ⦃rt : Runtime⦄ where
  open rt use {Dispatched, dispatch_rx, poll_dispatched}

  abbrev pub Inner : Type 0
  Inner = AsyncBodySink StatefulArbiter

  abbrev pub DispatchReturn : Type 0
  DispatchReturn = Outcome FutioError (Poll Done) × Inner

  -- `lost` is `Sink(None)`, which a panic while dispatching leaves.
  pub data DispatchBodySink : Type 0 where
    sink : Inner → DispatchBodySink
    lost : DispatchBodySink
    dispatched : Dispatched DispatchReturn → DispatchBodySink

  unfoldable pub new_dispatch_sink : BodySink → FutioTunables → DispatchBodySink
  unfolding new_sink
  new_dispatch_sink b t = sink (new_sink b t)

  abbrev pub dispatch_into_inner : DispatchBodySink → Outcome FutioError BodySink
  dispatch_into_inner (sink s) = into_inner s
  dispatch_into_inner lost = panic
  dispatch_into_inner (dispatched d) = panic

  unfoldable pub dispatch_start_send : Bytes → Exec DispatchBodySink FutioError Done
  unfolding send
  dispatch_start_send b (sink s) = let (r, s') = send b s in (r, sink s')
  dispatch_start_send b lost = (panic, lost)
  dispatch_start_send b (dispatched d) = (panic, dispatched d)

  -- The dispatched call has ended: `debug_assert_eq!`, and the sink comes back.
  abbrev pub come_back :
      DispatchReturn → Dispatched DispatchReturn → Exec DispatchBodySink FutioError (Poll Done)
  come_back (res, ob) d s =
      if is_void ob.arbiter.state then (res, sink ob) else (panic, dispatched d)

  abbrev pub returned :
      Answer DispatchReturn
      → Dispatched DispatchReturn
      → Exec DispatchBodySink FutioError (Poll Done)
  returned (granted ret) d s = come_back ret d s
  returned (canceled c) d s = (err (op_canceled c), dispatched d)
  returned not_yet d s = (ok pending, dispatched d)

  unfoldable pub flush_dispatched :
      Dispatched DispatchReturn → Exec DispatchBodySink FutioError (Poll Done)
  flush_dispatched d s = let (a, d') = poll_dispatched d in returned a d' s

  -- The new future is polled at once, by the recursive call of the source.
  abbrev pub dispatch_to :
      Option (Dispatched DispatchReturn) → Exec DispatchBodySink FutioError (Poll Done)
  dispatch_to none s = (panic, lost)
  dispatch_to (some d) s = flush_dispatched d (dispatched d)

  module _ ⦃st : Storage⦄ where
    -- One blocking operation is allowed, on a thread of the pool.
    unfoldable pub dispatch_flush : Inner → Exec DispatchBodySink FutioError (Poll Done)
    unfolding flush_dispatched poll_flush_impl
    dispatch_flush ob =
        dispatch_to (
          dispatch_rx (λ _. poll_flush_impl (record ob { arbiter = set Blocking.once ob.arbiter })))

    abbrev pub dispatch_if_pending :
        Outcome FutioError (Poll Done) → Inner → Exec DispatchBodySink FutioError (Poll Done)
    dispatch_if_pending (ok pending) ob s =
        if is_pending ob.arbiter.state then dispatch_flush ob s else (ok pending, sink ob)
    dispatch_if_pending r ob s = (r, sink ob)

    -- Also `poll_ready` and `poll_close`.
    unfoldable pub dispatch_poll_flush : Exec DispatchBodySink FutioError (Poll Done)
    unfolding dispatch_flush poll_flush_impl
    dispatch_poll_flush (sink ob) =
        let (res, ob') = poll_flush_impl ob in dispatch_if_pending res ob' (sink ob)
    dispatch_poll_flush lost = (panic, lost)
    dispatch_poll_flush (dispatched d) = flush_dispatched d (dispatched d)
