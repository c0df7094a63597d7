-- ===== src/Futio/Sink/Stuck.antt =====
-- A flush of an asynchronous sink that is pending waits for an allowance to block.
use body_image.Common.{
  ◌<◌, ◌^◌, ◌≡◌, refl, ap, length, length-append, Option, none, some, Done, Outcome, ok, err, panic,
  hang, arith,
}
use body_image.Io.{Bytes, IoError, interrupted}
use body_image.Storage.{Storage}
use body_image.Image.Content.{MakesFiles}
use body_image.Futio.Crates.{Runtime, Poll, pending}
use body_image.Futio.Errors.{FutioError}
use body_image.Futio.Arbiter.{BlockingArbiter}
use body_image.Futio.Tune.{FutioTunables}
use body_image.Futio.Sink.{AsyncBodySink, put_back, flush_buf, poll_flush_impl}
use body_image.Futio.Sink.Accepts.{Accepts}
use body_image.Futio.Sink.Flush.{poll_send-Accepts}
use body_image.Futio.Sink.Direct.{Carries, whole_of, Within-same}
use body_image.Futio.Sink.Granted.{Blocked}

module _ ⦃rt : Runtime⦄ {BA : Type 0} (P : IoError → Type 0) where
  abbrev pub Stuck : Outcome FutioError (Poll Done) → AsyncBodySink BA → Type 0
  Stuck (ok pending) s = Blocked s
  Stuck _ s = Unit

  put_back-Stuck :
      (s : AsyncBodySink BA) (pre b : Bytes) (r : Outcome FutioError (Option Bytes))
      → (s' : AsyncBodySink BA) → Accepts P s pre b r s'
      → let (q, s'') = put_back r s' in Stuck q s''
  put_back-Stuck s pre b (ok none) s' h = tt
  put_back-Stuck s pre b (ok (some rest)) s' h = record {
    buffer = rest;
    waits = refl;
    needs = record {
      some_byte = rw (h.0) (h.4.some_byte);
      short = rw (h.0, h.1, h.2) (h.4.short);
      big = rw (h.0, h.1, h.2) (h.4.big);
    };
  }
  put_back-Stuck s pre b (err e) s' h = tt
  put_back-Stuck s pre b panic s' h = tt
  put_back-Stuck s pre b hang s' h = tt

  module _ ⦃st : Storage⦄ ⦃ba : BlockingArbiter BA⦄ (makes : MakesFiles P st)
      (quiet : P interrupted → ⊥) (t : FutioTunables) where
    flush_buf-Stuck :
        (s : AsyncBodySink BA) (total : Bytes) (ob : Option Bytes)
        → s.buf ≡ ob
        → Carries P t s total
        → length total < 2 ^ 64
        → let (r, s') = flush_buf ob s in Stuck r s'
    flush_buf-Stuck s total none e h fits = tt
    flush_buf-Stuck s total (some b) e h fits =
        put_back-Stuck (record s { buf = none }) h.done b _ _
          (poll_send-Accepts P makes quiet (record s { buf = none }) h.done b
            (Within-same P t s (record s { buf = none }) h.done refl refl h.within)
            (omega (arith, length-append h.done b, ap length (whole_of P t s total b h e))))

    pub flush-Stuck :
        (s : AsyncBodySink BA) (total : Bytes)
        → Carries P t s total
        → length total < 2 ^ 64
        → let (r, s') = poll_flush_impl s in Stuck r s'
    unfolding poll_flush_impl
    flush-Stuck s total h fits = flush_buf-Stuck s total s.buf refl h fits
