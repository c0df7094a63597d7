-- ===== src/Futio/Permit.antt =====
-- `PermitBodySink` of body-image-futio/src/sink.rs.
pub mod Fulfils
use body_image.Common.{
  Bool, true, false, if◌then◌else◌, Option, none, some, Done, Outcome, ok, err, panic, hang,
}
use body_image.Common.Exec.{Exec}
use body_image.Io.{Bytes}
use body_image.Storage.{Storage}
use body_image.Image.{BodySink}
use body_image.Futio.Crates.{Runtime, Poll, ready, pending, Answer, granted, canceled, not_yet}
use body_image.Futio.Errors.{FutioError, op_canceled}
use body_image.Futio.Arbiter.{Blocking, StatefulArbiter, stateful_arbiter, set, is_pending, is_void}
use body_image.Futio.Tune.{FutioTunables, blocking_semaphore}
use body_image.Futio.Sink.{AsyncBodySink, new_sink, send, poll_flush_impl, into_inner}

module _ ⦃rt : Runtime⦄ where
  open rt use {Semaphore, PermitFuture, Permit, blocking_permit_future, poll_permit, run}

  pub record PermitBodySink : Type 0 where
    pub sink : AsyncBodySink StatefulArbiter
    pub permit : Option PermitFuture

  unfoldable pub new_permit_sink : BodySink → FutioTunables → PermitBodySink
  unfolding new_sink
  new_permit_sink b t = record { sink = new_sink b t; permit = none }

  abbrev pub permit_into_inner : PermitBodySink → Outcome FutioError BodySink
  permit_into_inner s = into_inner s.sink

  unfoldable pub permit_start_send : Bytes → Exec PermitBodySink FutioError Done
  unfolding send
  permit_start_send b s = let (r, sink) = send b s.sink in (r, record s { sink = sink })

  -- `debug_assert_eq!(… state(), Blocking::Void)`, then the answer.
  abbrev pub checked : Outcome FutioError (Poll Done) → Exec PermitBodySink FutioError (Poll Done)
  checked res s = if is_void s.sink.arbiter.state then (res, s) else (panic, s)

  module _ ⦃st : Storage⦄ where
    -- With the permit: one blocking operation is allowed, and run under it.
    unfoldable pub flush_permitted : Permit → Exec PermitBodySink FutioError (Poll Done)
    unfolding poll_flush_impl
    flush_permitted p s =
        let allowed = record s.sink { arbiter = set Blocking.once s.sink.arbiter } in
        let (res, sink) = run p (λ _. poll_flush_impl allowed) in
        checked res (record s { sink = sink })

    abbrev pub answered : Answer Permit → PermitFuture → Exec PermitBodySink FutioError (Poll Done)
    answered (granted p) pf s = flush_permitted p (record s { permit = none })
    answered (canceled c) pf s = (err (op_canceled c), record s { permit = some pf })
    answered not_yet pf s = (ok pending, record s { permit = some pf })

    -- The branch for a permit that was asked for.
    unfoldable pub flush_waiting : PermitFuture → Exec PermitBodySink FutioError (Poll Done)
    unfolding flush_permitted
    flush_waiting pf s = let (a, pf') = poll_permit pf in answered a pf' s

    -- The new future is polled at once, by the recursive call of the source.
    abbrev pub ask : Option Semaphore → Exec PermitBodySink FutioError (Poll Done)
    ask none s = (panic, s)
    ask (some sema) s = flush_waiting (blocking_permit_future sema) s

    abbrev pub ask_if_pending :
        Outcome FutioError (Poll Done) → Exec PermitBodySink FutioError (Poll Done)
    ask_if_pending (ok pending) s =
        if is_pending s.sink.arbiter.state
        then ask (blocking_semaphore s.sink.tune) s
        else (ok pending, s)
    ask_if_pending r s = (r, s)

    abbrev pub flush_by : Option PermitFuture → Exec PermitBodySink FutioError (Poll Done)
    flush_by (some pf) s = flush_waiting pf s
    flush_by none s =
        let (res, sink) = poll_flush_impl s.sink in ask_if_pending res (record s { sink = sink })

    -- Also `poll_ready` and `poll_close`.
    unfoldable pub permit_poll_flush : Exec PermitBodySink FutioError (Poll Done)
    unfolding flush_waiting
    permit_poll_flush s = flush_by s.permit s
