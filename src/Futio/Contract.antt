-- ===== src/Futio/Contract.antt =====
-- The contract of the three asynchronous sinks (`SinkWrapper` of body-image-futio/src/wrappers.rs
-- over `futures_sink::Sink`), and what it gives to whoever drives one.
use body_image.Common.{
  true, ℕ, ◌<◌, ◌≤◌, ◌+◌, ◌^◌, ◌≡◌, [], ◌++◌, length, length-append, append-nil, append_assoc, Done,
  Outcome, ok, err, panic, hang, arith,
}
use mathlib.Core.Path.{subst}
use body_image.Common.Exec.{Exec}
use body_image.Io.{Bytes, IoError}
use body_image.Image.{body_too_long, io, BodySink, is_ram}
use body_image.Image.Tune.{Tunables}
use body_image.Image.Content.{Holds}
use body_image.Futio.Crates.{Poll, ready, pending}
use body_image.Futio.Errors.{FutioError, body, op_canceled}

-- The operations: `poll_ready`, `poll_flush` and `poll_close` are one.
pub record SinkOps (S : Type 0) : Type 0 where
  pub start_send : Bytes → Exec S FutioError Done
  pub poll_flush : Exec S FutioError (Poll Done)
  pub into_inner : S → Outcome FutioError BodySink

-- What each call may do to a sink that has been given `total`.
abbrev pub Sends :
    {S : Type 0} (Carries : S → Bytes → Type 0) (Idle : S → Type 0)
    → S
    → (total b : Bytes) → Outcome FutioError Done
    → S
    → Type 0
Sends Carries Idle s total b (ok _) s' = Carries s' (total ++ b)
Sends Carries Idle s total b (err e) s' = ⊥
Sends Carries Idle s total b panic s' = Idle s → ⊥
Sends Carries Idle s total b hang s' = ⊥

module _ (P : IoError → Type 0) (Cancels : ℕ → Type 0) (limits : Tunables) where
  abbrev pub Fails : Bytes → FutioError → Type 0
  Fails total (body (body_too_long n)) = (n ≡ length total) × (limits.max_body < n)
  Fails total (body (io e)) = P e
  Fails total (op_canceled c) = Cancels c
  Fails total _ = ⊥

  abbrev pub Flushes :
      {S : Type 0} (Carries : S → Bytes → Type 0) (Idle : S → Type 0)
      → (total : Bytes) → Outcome FutioError (Poll Done)
      → S
      → Type 0
  Flushes Carries Idle total (ok (ready _)) s' = Carries s' total × Idle s'
  Flushes Carries Idle total (ok pending) s' = Carries s' total
  Flushes Carries Idle total (err e) s' = Fails total e
  Flushes Carries Idle total panic s' = ⊥
  Flushes Carries Idle total hang s' = ⊥

  abbrev pub Keeps : Bytes → Outcome FutioError BodySink → Type 0
  Keeps total (ok b) =
      Holds P b total
      × (length total ≤ limits.max_body)
      × (is_ram b ≡ true → length total ≤ limits.max_body_ram)
  Keeps total _ = ⊥

  -- How the next flush of a driven sink ends. Once it is ready, the body that the sink gives back
  -- holds `total`; the call never panics.
  abbrev pub Delivers :
      {S : Type 0} → SinkOps S → (total : Bytes) → Outcome FutioError (Poll Done) → S → Type 0
  Delivers ops total (ok (ready _)) s = Keeps total (ops.into_inner s)
  Delivers ops total (ok pending) s = Unit
  Delivers ops total (err e) s = Fails total e
  Delivers ops total panic s = ⊥
  Delivers ops total hang s = ⊥

  -- `Carries s total`: the bytes in the body and the buffer that waits are `total`, in this order.
  -- `Idle s`: no buffer waits.
  pub record Contract {S : Type 0} (ops : SinkOps S) : Type 1 where
    pub Carries : S → Bytes → Type 0
    pub Idle : S → Type 0
    pub sends :
        (s : S) (total b : Bytes)
        → Carries s total
        → let (r, s') = ops.start_send b s in Sends Carries Idle s total b r s'
    pub flushes :
        (s : S) (total : Bytes)
        → Carries s total
        → length total < 2 ^ 64
        → let (r, s') = ops.poll_flush s in Flushes Carries Idle total r s'
    pub keeps : (s : S) (total : Bytes) → Carries s total → Idle s → Keeps total (ops.into_inner s)

-- `Drives ops s sent s'`: calls that all succeed lead from `s` to `s'`, and `sent` is what they
-- sent. A poll may answer that it is pending.
pub data Drives {S : Type 0} (ops : SinkOps S) (s : S) : Bytes → S → Type 0 where
  at_start : Drives ops s [] s
  sending :
      {sent : Bytes} {s' s'' : S} (b : Bytes)
      → Drives ops s sent s'
      → ops.start_send b s' ≡ (ok tt, s'')
      → Drives ops s (sent ++ b) s''
  polling :
      {sent : Bytes} {s' s'' : S} {p : Poll Done}
      → Drives ops s sent s'
      → ops.poll_flush s' ≡ (ok p, s'')
      → Drives ops s sent s''

module _ (P : IoError → Type 0) (Cancels : ℕ → Type 0) (limits : Tunables) where
  module _ {S : Type 0} {ops : SinkOps S} (c : Contract P Cancels limits ops) where
    open c use {Carries, Idle}

    flushed-Carries :
        (total : Bytes) (p : Poll Done) (s : S)
        → Flushes P Cancels limits Carries Idle total (ok p) s
        → Carries s total
    flushed-Carries total (ready _) s h = h.0
    flushed-Carries total pending s h = h

    Drives-Carries :
        (s s' : S) (total sent : Bytes)
        → Carries s total
        → length total + length sent < 2 ^ 64
        → Drives ops s sent s'
        → Carries s' (total ++ sent)
    Drives-Carries s s' total _ h fits at_start = rw append-nil h
    Drives-Carries s s' total _ h fits (sending {sent = sent} {s' = s1} b d e) =
        rw (← append_assoc total sent b) (
          subst (λ q. Sends Carries Idle s1 (total ++ sent) b q.0 q.1) e
            (c.sends s1 (total ++ sent) b
              (Drives-Carries s s1 total sent h (omega (arith, length-append sent b)) d)))
    Drives-Carries s s' total _ h fits (polling {sent = sent} {s' = s1} {p = p} d e) =
        flushed-Carries (total ++ sent) p s' (
          subst (λ q. Flushes P Cancels limits Carries Idle (total ++ sent) q.0 q.1) e
            (c.flushes s1 (total ++ sent) (Drives-Carries s s1 total sent h fits d)
              (omega (arith, length-append total sent))))

    Flushes-Delivers :
        (total : Bytes) (r : Outcome FutioError (Poll Done)) (s : S)
        → Flushes P Cancels limits Carries Idle total r s
        → Delivers P Cancels limits ops total r s
    Flushes-Delivers total (ok (ready _)) s h = c.keeps s total h.0 h.1
    Flushes-Delivers total (ok pending) s h = tt
    Flushes-Delivers total (err e) s h = h
    Flushes-Delivers total panic s h = h
    Flushes-Delivers total hang s h = h

    -- What the contract gives to a client, however its calls follow each other.
    pub Drives-Delivers :
        (s s' : S) (total sent : Bytes)
        → Carries s total
        → length total + length sent < 2 ^ 64
        → Drives ops s sent s'
        → let (r, s'') = ops.poll_flush s' in Delivers P Cancels limits ops (total ++ sent) r s''
    Drives-Delivers s s' total sent h fits d = Flushes-Delivers (total ++ sent) _ _ (
        c.flushes s' (total ++ sent) (Drives-Carries s s' total sent h fits d)
          (omega (arith, length-append total sent)))
