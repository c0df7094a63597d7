-- ===== src/Futio/Sink/Direct.antt =====
-- The plain asynchronous sink fulfils the contract of the sinks.
use body_image.Common.{
  ℕ, ◌<◌, ◌^◌, ◌≡◌, refl, sym, ap, ◌∙◌, [], ◌++◌, length, length-append, append-nil, Option, none,
  some, Outcome, ok, err, panic, hang, arith,
}
use body_image.Io.{Bytes, IoError, interrupted}
use body_image.Storage.{Storage}
use body_image.Image.{body_too_long, io}
use body_image.Image.Content.{MakesFiles}
use body_image.Futio.Crates.{Runtime}
use body_image.Futio.Errors.{FutioError, body}
use body_image.Futio.Arbiter.{BlockingArbiter}
use body_image.Futio.Tune.{FutioTunables}
use body_image.Futio.Sink.{
  AsyncBodySink, put_back, flush_buf, poll_flush_impl, send_to, send, into_inner,
}
use body_image.Futio.Sink.Accepts.{Within, Accepts}
use body_image.Futio.Sink.Flush.{poll_send-Accepts}
use body_image.Futio.Contract.{SinkOps, Sends, Flushes, Keeps, Contract}

abbrev pub waiting : Option Bytes → Bytes
waiting none = []
waiting (some b) = b

module _ ⦃rt : Runtime⦄ {BA : Type 0} ⦃st : Storage⦄ ⦃ba : BlockingArbiter BA⦄ where
  abbrev pub direct_ops : SinkOps (AsyncBodySink BA)
  direct_ops = record { start_send = send; poll_flush = poll_flush_impl; into_inner = into_inner }

module _ ⦃rt : Runtime⦄ {BA : Type 0} (P : IoError → Type 0) (t : FutioTunables) where
  pub record Carries (s : AsyncBodySink BA) (total : Bytes) : Type 0 where
    pub done : Bytes
    pub within : Within P s done
    pub whole : done ++ waiting s.buf ≡ total
    pub tuned : s.tune ≡ t

  abbrev pub Idle : AsyncBodySink BA → Type 0
  Idle s = s.buf ≡ none

  send_to-Sends :
      (s : AsyncBodySink BA) (total b : Bytes) (ob : Option Bytes)
      → s.buf ≡ ob
      → Carries s total
      → let (r, s') = send_to ob b s in Sends Carries Idle s total b r s'
  send_to-Sends s total b none e h =
      let done_all : h.done ≡ total =
        sym (append-nil h.done) ∙ ap (λ o. h.done ++ waiting o) (sym e) ∙ h.whole in
      record {
        done = h.done;
        within = record {
          holds = h.within.holds;
          bounded = h.within.bounded;
          in_ram = h.within.in_ram;
        };
        whole = rw done_all refl;
        tuned = h.tuned;
      }
  send_to-Sends s total b (some c) e h = λ idle. cc

  pub send-Sends :
      (s : AsyncBodySink BA) (total b : Bytes)
      → Carries s total
      → let (r, s') = send b s in Sends Carries Idle s total b r s'
  unfolding send
  send-Sends s total b h = send_to-Sends s total b s.buf refl h

  -- A body and limits that stay the same keep what is held.
  pub Within-same :
      (s s' : AsyncBodySink BA) (b : Bytes)
      → s'.body ≡ s.body
      → s'.tune ≡ s.tune
      → Within P s b
      → Within P s' b
  Within-same s s' b same tune h = record {
    holds = rw same (h.holds);
    bounded = rw tune (h.bounded);
    in_ram = rw (same, tune) (h.in_ram);
  }

  pub whole_of :
      (s : AsyncBodySink BA) (total b : Bytes) (h : Carries s total)
      → s.buf ≡ some b
      → h.done ++ b ≡ total
  whole_of s total b h e = ap (λ o. h.done ++ waiting o) (sym e) ∙ h.whole

  module _ (C : ℕ → Type 0) where
    put_back-Flushes :
        (s : AsyncBodySink BA) (total b : Bytes) (r : Outcome FutioError (Option Bytes))
        → (s' : AsyncBodySink BA) (h : Carries s total) → s.buf ≡ some b
        → Accepts P (record s { buf = none }) h.done b r s'
        → let (q, s'') = put_back r s' in Flushes P C t.image Carries Idle total q s''
    put_back-Flushes s total b (ok none) s' h e a = (
      record {
        done = h.done ++ b;
        within = a.0;
        whole = rw (a.2, append-nil (h.done ++ b)) (whole_of s total b h e);
        tuned = a.1 ∙ h.tuned;
      },
      a.2,
    )
    put_back-Flushes s total b (ok (some rest)) s' h e a = record {
      done = h.done;
      within = Within-same s (record s' { buf = some rest }) h.done (a.1) (a.2) h.within;
      whole = rw (a.0) (whole_of s total b h e);
      tuned = a.2 ∙ h.tuned;
    }
    put_back-Flushes s total b (err (body (body_too_long n))) s' h e a =
        (a.0 ∙ ap length (whole_of s total b h e), rw (← h.tuned) (a.1))
    put_back-Flushes s total b (err (body (io x))) s' h e a = a
    put_back-Flushes s total b (err _) s' h e a = absurd a
    put_back-Flushes s total b panic s' h e a = a
    put_back-Flushes s total b hang s' h e a = a

    module _ ⦃st : Storage⦄ ⦃ba : BlockingArbiter BA⦄ (makes : MakesFiles P st)
        (quiet : P interrupted → ⊥) where
      flush_buf-Flushes :
          (s : AsyncBodySink BA) (total : Bytes) (ob : Option Bytes)
          → s.buf ≡ ob
          → Carries s total
          → length total < 2 ^ 64
          → let (r, s') = flush_buf ob s in Flushes P C t.image Carries Idle total r s'
      flush_buf-Flushes s total none e h fits = (h, e)
      flush_buf-Flushes s total (some b) e h fits = put_back-Flushes s total b _ _ h e (
          poll_send-Accepts P makes quiet (record s { buf = none }) h.done b
            (Within-same s (record s { buf = none }) h.done refl refl h.within)
            (omega (arith, length-append h.done b, ap length (whole_of s total b h e))))

      pub flush-Flushes :
          (s : AsyncBodySink BA) (total : Bytes)
          → Carries s total
          → length total < 2 ^ 64
          → let (r, s') = poll_flush_impl s in Flushes P C t.image Carries Idle total r s'
      unfolding poll_flush_impl
      flush-Flushes s total h fits = flush_buf-Flushes s total s.buf refl h fits

      pub within-Keeps :
          (s : AsyncBodySink BA) (total : Bytes)
          → Carries s total
          → Idle s
          → Keeps P C t.image total (into_inner s)
      within-Keeps s total h idle =
          let same : h.done ≡ total =
            sym (append-nil h.done) ∙ ap (λ o. h.done ++ waiting o) (sym idle) ∙ h.whole in
          rw (← same, ← h.tuned) (h.within.holds, h.within.bounded, h.within.in_ram)

      -- The plain sink, under either arbiter.
      abbrev pub direct-Contract : Contract P C t.image (direct_ops {BA = BA})
      direct-Contract = record {
        Carries = Carries;
        Idle = Idle;
        sends = send-Sends;
        flushes = flush-Flushes;
        keeps = within-Keeps;
      }
