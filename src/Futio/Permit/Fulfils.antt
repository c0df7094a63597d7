-- ===== src/Futio/Permit/Fulfils.antt =====
-- The sink with permits fulfils the contract of the sinks.
use body_image.Common.{
  ℕ, ◌<◌, ◌^◌, ◌≡◌, refl, sym, ap, ◌∙◌, ◌≢◌, inl, inr, length, true, Bool-cases, Option, none, some,
  Done, Outcome, ok, err, panic, hang,
}
use mathlib.Core.Path.{subst}
use body_image.Io.{Bytes, IoError, interrupted}
use body_image.Storage.{Storage}
use body_image.Image.Content.{MakesFiles}
use body_image.Futio.Crates.{Runtime, Poll, ready, pending, Answer, granted, canceled, not_yet}
use body_image.Futio.Errors.{FutioError}
use body_image.Futio.Arbiter.{Blocking, StatefulArbiter, stateful_arbiter, set, is_pending, is_void}
use body_image.Futio.Tune.{FutioTunables, blocking_semaphore}
use body_image.Futio.Sink.{AsyncBodySink, send, send_to, poll_flush_impl}
use body_image.Futio.Sink.Direct.{Carries, Idle, send-Sends, flush-Flushes, within-Keeps}
use body_image.Futio.Sink.Granted.{Blocked, Blocked-flush_arbiter}
use body_image.Futio.Sink.Stuck.{Stuck, flush-Stuck}
use body_image.Futio.Sink.Allowed.{Unallowed, allowed-Carries, allowed-Blocked, flush-Unallowed}
use body_image.Futio.Contract.{SinkOps, Sends, Flushes, Contract}
use body_image.Futio.Permit.{
  PermitBodySink, permit_into_inner, permit_start_send, checked, flush_permitted, answered,
  flush_waiting, ask_if_pending, flush_by, permit_poll_flush,
}

-- `BlockingPermit::run` calls the function and gives back what it returns.
pub record Runs (rt : Runtime) : Type 1 where
  pub runs : {A : Type 0} (p : rt.Permit) (f : Done → A) → rt.run p f ≡ f tt

module _ ⦃rt : Runtime⦄ ⦃st : Storage⦄ where
  abbrev pub permit_ops : SinkOps PermitBodySink
  permit_ops = record {
    start_send = permit_start_send;
    poll_flush = permit_poll_flush;
    into_inner = permit_into_inner;
  }

module _ ⦃rt : Runtime⦄ (P : IoError → Type 0) (t : FutioTunables) where
  open rt use {Semaphore, PermitFuture, Permit}

  pub record PermitCarries (s : PermitBodySink) (total : Bytes) : Type 0 where
    pub carries : Carries P t s.sink total
    pub blocked : s.permit ≢ none → Blocked s.sink
    pub unallowed : Unallowed s.sink.arbiter

  abbrev pub PermitIdle : PermitBodySink → Type 0
  PermitIdle s = s.sink.buf ≡ none

  send_to-PermitSends :
      (s : PermitBodySink) (total b : Bytes) (ob : Option Bytes)
      → s.sink.buf ≡ ob
      → PermitCarries s total
      → (let (r, s') = send_to ob b s.sink in Sends (Carries P t) (Idle P t) s.sink total b r s')
      → let (r, sink) = send_to ob b s.sink in
        Sends PermitCarries PermitIdle s total b r (record s { sink = sink })
  send_to-PermitSends s total b none e h k = record {
    carries = k;
    blocked = λ asked. (let stuck = h.blocked asked in cc);
    unallowed = h.unallowed;
  }
  send_to-PermitSends s total b (some c) e h k = k

  pub permit_send-Sends :
      (s : PermitBodySink) (total b : Bytes)
      → PermitCarries s total
      → let (r, s') = permit_start_send b s in Sends PermitCarries PermitIdle s total b r s'
  unfolding permit_start_send send
  permit_send-Sends s total b h =
      send_to-PermitSends s total b s.sink.buf refl h (send-Sends P t s.sink total b h.carries)

  module _ (C : ℕ → Type 0) where
    -- A flush of the inner sink, seen from outside, when no permit is asked for.
    flushed_inside :
        (total : Bytes) (r : Outcome FutioError (Poll Done)) (s : PermitBodySink)
        → s.permit ≡ none
        → Unallowed s.sink.arbiter
        → Flushes P C t.image (Carries P t) (Idle P t) total r s.sink
        → Flushes P C t.image PermitCarries PermitIdle total r s
    flushed_inside total (ok (ready _)) s e u h =
        (record { carries = h.0; blocked = λ asked. absurd (asked e); unallowed = u }, h.1)
    flushed_inside total (ok pending) s e u h = record {
      carries = h;
      blocked = λ asked. absurd (asked e);
      unallowed = u;
    }
    flushed_inside total (err x) s e u h = h
    flushed_inside total panic s e u h = h
    flushed_inside total hang s e u h = h

    module _ ⦃st : Storage⦄ (makes : MakesFiles P st) (quiet : P interrupted → ⊥) (runs : Runs rt)
        (cancels : (c : ℕ) → C c) where
      checked-Flushes :
          (total : Bytes) (r : Outcome FutioError (Poll Done)) (s : PermitBodySink)
          → s.sink.arbiter ≡ record { state = Blocking.void }
          → s.permit ≡ none
          → Flushes P C t.image (Carries P t) (Idle P t) total r s.sink
          → let (r', s') = checked r s in Flushes P C t.image PermitCarries PermitIdle total r' s'
      checked-Flushes total r s void e h =
          let is : is_void s.sink.arbiter.state ≡ true = ap (λ a. is_void a.state) void in
          rw is (flushed_inside total r s e (subst Unallowed (sym void) refl) h)

      permitted-Flushes :
          (p : Permit) (s : PermitBodySink) (total : Bytes)
          → Carries P t s.sink total
          → Blocked s.sink
          → s.permit ≡ none
          → length total < 2 ^ 64
          → let (r, s') = flush_permitted p s in
            Flushes P C t.image PermitCarries PermitIdle total r s'
      unfolding flush_permitted
      permitted-Flushes p s total h b e fits =
          let allowed : AsyncBodySink StatefulArbiter = record s.sink {
            arbiter = set Blocking.once s.sink.arbiter;
          } in
          subst
            (λ q.
              let (r, s') = checked q.0 (record s { sink = q.1 }) in
              Flushes P C t.image PermitCarries PermitIdle total r s')
            (sym (runs.runs p (λ _. poll_flush_impl allowed)))
            (checked-Flushes total _ (record s { sink = (poll_flush_impl allowed).1 })
              (Blocked-flush_arbiter allowed (allowed-Blocked s.sink b)) e
              (flush-Flushes P t C makes quiet allowed total (allowed-Carries P t s.sink total h)
                fits))

      -- The sink while a permit is awaited.
      answered-Flushes :
          (a : Answer Permit) (pf : PermitFuture) (s : PermitBodySink) (total : Bytes)
          → Carries P t s.sink total
          → Blocked s.sink
          → Unallowed s.sink.arbiter
          → length total < 2 ^ 64
          → let (r, s') = answered a pf s in Flushes P C t.image PermitCarries PermitIdle total r s'
      answered-Flushes (granted p) pf s total h b u fits =
          permitted-Flushes p (record s { permit = none }) total h b refl fits
      answered-Flushes (canceled c) pf s total h b u fits = cancels c
      answered-Flushes not_yet pf s total h b u fits = record {
        carries = h;
        blocked = λ asked. b;
        unallowed = u;
      }

      waiting-Flushes :
          (pf : PermitFuture) (s : PermitBodySink) (total : Bytes)
          → Carries P t s.sink total
          → Blocked s.sink
          → Unallowed s.sink.arbiter
          → length total < 2 ^ 64
          → let (r, s') = flush_waiting pf s in
            Flushes P C t.image PermitCarries PermitIdle total r s'
      unfolding flush_waiting
      waiting-Flushes pf s total h b u fits = answered-Flushes _ _ s total h b u fits

      module _ (sema : Semaphore) (given : blocking_semaphore t ≡ some sema) where
        ask_if_pending-Flushes :
            (r : Outcome FutioError (Poll Done)) (s : PermitBodySink) (total : Bytes)
            → s.permit ≡ none
            → Flushes P C t.image (Carries P t) (Idle P t) total r s.sink
            → Stuck P r s.sink
            → Unallowed s.sink.arbiter
            → length total < 2 ^ 64
            → let (r', s') = ask_if_pending r s in
              Flushes P C t.image PermitCarries PermitIdle total r' s'
        ask_if_pending-Flushes (ok pending) s total e h b u fits =
            elim (Bool-cases (is_pending s.sink.arbiter.state)) [
              | inl asks ↦
                  let set_up : blocking_semaphore s.sink.tune ≡ some sema =
                    ap blocking_semaphore h.tuned ∙ given in
                  rw (asks, set_up)
                    (waiting-Flushes (rt.blocking_permit_future sema) s total h b u fits)
              | inr unasked ↦ rw unasked (flushed_inside total (ok pending) s e u h)
            ]
        ask_if_pending-Flushes (ok (ready x)) s total e h b u fits =
            flushed_inside total (ok (ready x)) s e u h
        ask_if_pending-Flushes (err x) s total e h b u fits = h
        ask_if_pending-Flushes panic s total e h b u fits = h
        ask_if_pending-Flushes hang s total e h b u fits = h

        flush_by-Flushes :
            (o : Option PermitFuture) (s : PermitBodySink) (total : Bytes)
            → s.permit ≡ o
            → PermitCarries s total
            → length total < 2 ^ 64
            → let (r, s') = flush_by o s in Flushes P C t.image PermitCarries PermitIdle total r s'
        flush_by-Flushes none s total e h fits =
            ask_if_pending-Flushes _ (record s { sink = (poll_flush_impl s.sink).1 }) total e
              (flush-Flushes P t C makes quiet s.sink total h.carries fits)
              (flush-Stuck P makes quiet t s.sink total h.carries fits)
              (flush-Unallowed s.sink h.unallowed) fits
        flush_by-Flushes (some pf) s total e h fits =
            waiting-Flushes pf s total h.carries (h.blocked (λ none_asked. cc)) h.unallowed fits

        pub permit_flush-Flushes :
            (s : PermitBodySink) (total : Bytes)
            → PermitCarries s total
            → length total < 2 ^ 64
            → let (r, s') = permit_poll_flush s in
              Flushes P C t.image PermitCarries PermitIdle total r s'
        unfolding permit_poll_flush
        permit_flush-Flushes s total h fits = flush_by-Flushes s.permit s total refl h fits

        abbrev pub permit-Contract : Contract P C t.image permit_ops
        permit-Contract = record {
          Carries = PermitCarries;
          Idle = PermitIdle;
          sends = permit_send-Sends;
          flushes = permit_flush-Flushes;
          keeps = λ s total h idle. within-Keeps P t C makes quiet s.sink total h.carries idle;
        }
