-- ===== src/Futio/Dispatch/Fulfils.antt =====
-- The sink that dispatches to a pool fulfils the contract of the sinks.
use body_image.Common.{
  ℕ, ◌<◌, ◌^◌, ◌≡◌, refl, sym, ap, inl, inr, length, true, Bool-cases, Option, none, some, Done,
  Outcome, ok, err, panic, hang,
}
use mathlib.Core.Path.{subst}
use body_image.Io.{Bytes, IoError, interrupted}
use body_image.Storage.{Storage}
use body_image.Image.Content.{MakesFiles}
use body_image.Futio.Crates.{Runtime, Poll, ready, pending, Answer, granted, canceled, not_yet}
use body_image.Futio.Errors.{FutioError}
use body_image.Futio.Arbiter.{Blocking, stateful_arbiter, set, is_pending, is_void}
use body_image.Futio.Tune.{FutioTunables}
use body_image.Futio.Sink.{send, send_to, poll_flush_impl}
use body_image.Futio.Sink.Direct.{Carries, Idle, send-Sends, flush-Flushes, within-Keeps}
use body_image.Futio.Sink.Granted.{Blocked, Blocked-flush_arbiter}
use body_image.Futio.Sink.Stuck.{Stuck, flush-Stuck}
use body_image.Futio.Sink.Allowed.{Unallowed, allowed-Carries, allowed-Blocked, flush-Unallowed}
use body_image.Futio.Contract.{SinkOps, Sends, Flushes, Keeps, Contract}
use body_image.Futio.Dispatch.{
  Inner, DispatchReturn, DispatchBodySink, sink, lost, dispatched, dispatch_into_inner,
  dispatch_start_send, come_back, returned, flush_dispatched, dispatch_to, dispatch_flush,
  dispatch_if_pending, dispatch_poll_flush,
}

-- What an answer is, to a call that returns `x`.
abbrev pub AnswersWith : {A : Type 0} → A → Answer A → Type 0
AnswersWith x (granted y) = y ≡ x
AnswersWith x (canceled c) = Unit
AnswersWith x not_yet = Unit

-- A pool is registered, and a future of it gives, if anything, what the function returns.
pub record Dispatches (rt : Runtime) : Type 1 where
  pub result : {A : Type 0} → rt.Dispatched A → A
  pub registered :
      {A : Type 0} (f : Done → A)
      → (d : rt.Dispatched A) × (rt.dispatch_rx f ≡ some d) × (result d ≡ f tt)
  pub answers :
      {A : Type 0} (d : rt.Dispatched A)
      → let (a, d') = rt.poll_dispatched d in AnswersWith (result d) a × (result d' ≡ result d)

module _ ⦃rt : Runtime⦄ ⦃st : Storage⦄ where
  abbrev pub dispatch_ops : SinkOps DispatchBodySink
  dispatch_ops = record {
    start_send = dispatch_start_send;
    poll_flush = dispatch_poll_flush;
    into_inner = dispatch_into_inner;
  }

module _ ⦃rt : Runtime⦄ (P : IoError → Type 0) (C : ℕ → Type 0) (t : FutioTunables)
    (pool : Dispatches rt) where
  open rt use {Dispatched}

  -- What the dispatched call returns.
  pub record Returns (total : Bytes) (ret : DispatchReturn) : Type 0 where
    pub flushes : Flushes P C t.image (Carries P t) (Idle P t) total ret.0 ret.1
    pub spent : ret.1.arbiter ≡ record { state = Blocking.void }

  abbrev pub DispatchCarries : DispatchBodySink → Bytes → Type 0
  DispatchCarries (sink s) total = Carries P t s total × Unallowed s.arbiter
  DispatchCarries lost total = ⊥
  DispatchCarries (dispatched d) total = Returns total (pool.result d)

  abbrev pub DispatchIdle : DispatchBodySink → Type 0
  DispatchIdle (sink s) = s.buf ≡ none
  DispatchIdle lost = ⊥
  DispatchIdle (dispatched d) = ⊥

  sent_inside :
      (s : Inner) (total b : Bytes) (ob : Option Bytes)
      → Unallowed s.arbiter
      → (let (r, s') = send_to ob b s in Sends (Carries P t) (Idle P t) s total b r s')
      → let (r, s') = send_to ob b s in
        Sends DispatchCarries DispatchIdle (sink s) total b r (sink s')
  sent_inside s total b none u h = (h, u)
  sent_inside s total b (some c) u h = h

  pub dispatch_send-Sends :
      (s : DispatchBodySink) (total b : Bytes)
      → DispatchCarries s total
      → let (r, s') = dispatch_start_send b s in Sends DispatchCarries DispatchIdle s total b r s'
  unfolding dispatch_start_send send
  dispatch_send-Sends (sink s) total b h =
      sent_inside s total b s.buf h.1 (send-Sends P t s total b h.0)
  dispatch_send-Sends lost total b h = absurd h
  dispatch_send-Sends (dispatched d) total b h = λ idle. idle

  -- A flush of the inner sink, seen from outside.
  flushed_inside :
      (total : Bytes) (r : Outcome FutioError (Poll Done)) (s : Inner)
      → Unallowed s.arbiter
      → Flushes P C t.image (Carries P t) (Idle P t) total r s
      → Flushes P C t.image DispatchCarries DispatchIdle total r (sink s)
  flushed_inside total (ok (ready _)) s u h = ((h.0, u), h.1)
  flushed_inside total (ok pending) s u h = (h, u)
  flushed_inside total (err x) s u h = h
  flushed_inside total panic s u h = h
  flushed_inside total hang s u h = h

  come_back-Flushes :
      (ret : DispatchReturn) (d : Dispatched DispatchReturn) (s : DispatchBodySink) (total : Bytes)
      → Returns total ret
      → let (r, s') = come_back ret d s in
        Flushes P C t.image DispatchCarries DispatchIdle total r s'
  come_back-Flushes (res, ob) d s total h =
      let is : is_void ob.arbiter.state ≡ true = ap (λ a. is_void a.state) (h.spent) in
      rw is (flushed_inside total res ob (subst Unallowed (sym h.spent) refl) h.flushes)

  module _ (cancels : (c : ℕ) → C c) where
    returned-Flushes :
        (a : Answer DispatchReturn) (ret : DispatchReturn) (d : Dispatched DispatchReturn)
        → (s : DispatchBodySink) (total : Bytes) → AnswersWith ret a
        → pool.result d ≡ ret
        → Returns total ret
        → let (r, s') = returned a d s in
          Flushes P C t.image DispatchCarries DispatchIdle total r s'
    returned-Flushes (granted x) ret d s total a e h =
        come_back-Flushes x d s total (subst (Returns total) (sym a) h)
    returned-Flushes (canceled c) ret d s total a e h = cancels c
    returned-Flushes not_yet ret d s total a e h = subst (Returns total) (sym e) h

    flush_dispatched-Flushes :
        (d : Dispatched DispatchReturn) (s : DispatchBodySink) (total : Bytes)
        → Returns total (pool.result d)
        → let (r, s') = flush_dispatched d s in
          Flushes P C t.image DispatchCarries DispatchIdle total r s'
    unfolding flush_dispatched
    flush_dispatched-Flushes d s total h =
        returned-Flushes _ (pool.result d) _ s total (pool.answers d).0 (pool.answers d).1 h

    dispatch_to-Flushes :
        (o : Option (Dispatched DispatchReturn)) (d : Dispatched DispatchReturn)
        → (s : DispatchBodySink) (total : Bytes) → o ≡ some d
        → Returns total (pool.result d)
        → let (r, s') = dispatch_to o s in
          Flushes P C t.image DispatchCarries DispatchIdle total r s'
    dispatch_to-Flushes o d s total e h =
        subst
          (λ x.
            let (r, s') = dispatch_to x s in
            Flushes P C t.image DispatchCarries DispatchIdle total r s')
          (sym e) (flush_dispatched-Flushes d (dispatched d) total h)

    module _ ⦃st : Storage⦄ (makes : MakesFiles P st) (quiet : P interrupted → ⊥) where
      allowed-Returns :
          (ob : Inner) (total : Bytes)
          → Carries P t ob total
          → Blocked ob
          → length total < 2 ^ 64
          → Returns total (poll_flush_impl (record ob { arbiter = set Blocking.once ob.arbiter }))
      allowed-Returns ob total h b fits =
          let allowed : Inner = record ob { arbiter = set Blocking.once ob.arbiter } in
          record {
            flushes =
                flush-Flushes P t C makes quiet allowed total (allowed-Carries P t ob total h) fits;
            spent = Blocked-flush_arbiter allowed (allowed-Blocked ob b);
          }

      dispatch_flush-Flushes :
          (ob : Inner) (s : DispatchBodySink) (total : Bytes)
          → Carries P t ob total
          → Blocked ob
          → length total < 2 ^ 64
          → let (r, s') = dispatch_flush ob s in
            Flushes P C t.image DispatchCarries DispatchIdle total r s'
      unfolding dispatch_flush
      dispatch_flush-Flushes ob s total h b fits =
          let (d, made, same) =
            pool.registered
              (λ _. poll_flush_impl (record ob { arbiter = set Blocking.once ob.arbiter })) in
          dispatch_to-Flushes _ d s total made
            (subst (Returns total) (sym same) (allowed-Returns ob total h b fits))

      dispatch_if_pending-Flushes :
          (r : Outcome FutioError (Poll Done)) (ob : Inner) (s : DispatchBodySink) (total : Bytes)
          → Flushes P C t.image (Carries P t) (Idle P t) total r ob
          → Stuck P r ob
          → Unallowed ob.arbiter
          → length total < 2 ^ 64
          → let (r', s') = dispatch_if_pending r ob s in
            Flushes P C t.image DispatchCarries DispatchIdle total r' s'
      dispatch_if_pending-Flushes (ok pending) ob s total h b u fits =
          elim (Bool-cases (is_pending ob.arbiter.state)) [
            | inl asks ↦ rw asks (dispatch_flush-Flushes ob s total h b fits)
            | inr unasked ↦ rw unasked (flushed_inside total (ok pending) ob u h)
          ]
      dispatch_if_pending-Flushes (ok (ready x)) ob s total h b u fits =
          flushed_inside total (ok (ready x)) ob u h
      dispatch_if_pending-Flushes (err x) ob s total h b u fits = h
      dispatch_if_pending-Flushes panic ob s total h b u fits = h
      dispatch_if_pending-Flushes hang ob s total h b u fits = h

      pub dispatch_flush_lem :
          (s : DispatchBodySink) (total : Bytes)
          → DispatchCarries s total
          → length total < 2 ^ 64
          → let (r, s') = dispatch_poll_flush s in
            Flushes P C t.image DispatchCarries DispatchIdle total r s'
      unfolding dispatch_poll_flush
      dispatch_flush_lem (sink ob) total h fits =
          dispatch_if_pending-Flushes _ _ _ total
            (flush-Flushes P t C makes quiet ob total h.0 fits)
            (flush-Stuck P makes quiet t ob total h.0 fits) (flush-Unallowed ob h.1) fits
      dispatch_flush_lem lost total h fits = absurd h
      dispatch_flush_lem (dispatched d) total h fits =
          flush_dispatched-Flushes d (dispatched d) total h

      pub dispatch-Keeps :
          (s : DispatchBodySink) (total : Bytes)
          → DispatchCarries s total
          → DispatchIdle s
          → Keeps P C t.image total (dispatch_into_inner s)
      dispatch-Keeps (sink s) total h idle = within-Keeps P t C makes quiet s total h.0 idle
      dispatch-Keeps lost total h idle = absurd h
      dispatch-Keeps (dispatched d) total h idle = absurd idle

      abbrev pub dispatch-Contract : Contract P C t.image dispatch_ops
      dispatch-Contract = record {
        Carries = DispatchCarries;
        Idle = DispatchIdle;
        sends = dispatch_send-Sends;
        flushes = dispatch_flush_lem;
        keeps = dispatch-Keeps;
      }
