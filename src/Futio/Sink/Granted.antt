-- ===== src/Futio/Sink/Granted.antt =====
-- What a flush does to the arbiter of a sink that waits for an allowance to block.
use body_image.Common.{
  ℕ, suc, [], ◌∷◌, ◌≡◌, refl, ap, ◌⊎◌, ◌∙◌, length, Bool, true, false, ◌&&◌, ltb, leb, Option, none,
  some, Done, Outcome, ok, err, panic, hang, arith, Bool-cases, ==_ne, inl, inr,
}
use body_image.Common.Exec.{continue, pure}
use body_image.Io.{Bytes}
use body_image.Storage.{Storage}
use body_image.Image.{is_ram}
use body_image.Futio.Crates.{Runtime}
use body_image.Futio.Errors.{FutioError}
use body_image.Futio.Arbiter.{BlockingArbiter}
use body_image.Futio.Sink.{
  AsyncBodySink, write_buf, to_file, write_if, write_blocking, send_long, poll_send, put_back,
  flush_buf, poll_flush_impl,
}
use body_image.Futio.Sink.Accepts.{Needs}

module _ ⦃rt : Runtime⦄ {BA : Type 0} where
  -- A buffer waits that only a blocking operation can take.
  pub record Blocked (s : AsyncBodySink BA) : Type 0 where
    pub buffer : Bytes
    pub waits : s.buf ≡ some buffer
    pub needs : Needs s buffer

  continue_arbiter :
      (r : Outcome FutioError Done) (buf : Bytes) (s : AsyncBodySink BA)
      → (continue r (λ _. write_buf buf) s).1.arbiter ≡ s.arbiter
  unfolding write_buf
  continue_arbiter (ok _) buf s = refl
  continue_arbiter (err e) buf s = refl
  continue_arbiter panic buf s = refl
  continue_arbiter hang buf s = refl

  pure_arbiter :
      (r : Outcome FutioError Done) (s : AsyncBodySink BA)
      → (continue {B = Option Bytes} r (λ _. pure none) s).1.arbiter ≡ s.arbiter
  pure_arbiter (ok _) s = refl
  pure_arbiter (err e) s = refl
  pure_arbiter panic s = refl
  pure_arbiter hang s = refl

  put_back_arbiter :
      (r : Outcome FutioError (Option Bytes)) (s : AsyncBodySink BA)
      → (put_back r s).1.arbiter ≡ s.arbiter
  put_back_arbiter (ok none) s = refl
  put_back_arbiter (ok (some b)) s = refl
  put_back_arbiter (err e) s = refl
  put_back_arbiter panic s = refl
  put_back_arbiter hang s = refl

  module _ ⦃st : Storage⦄ where
    to_file_arbiter : (s : AsyncBodySink BA) → (to_file s).1.arbiter ≡ s.arbiter
    unfolding to_file
    to_file_arbiter s = elim (Bool-cases (is_ram s.body)) [
      | inl ram ↦ rw ram refl
      | inr file ↦ rw file refl
    ]

    write_if_arbiter :
        (allowed : Bool) (buf : Bytes) (s : AsyncBodySink BA)
        → (write_if allowed buf s).1.arbiter ≡ s.arbiter
    write_if_arbiter true buf s =
        continue_arbiter (to_file s).0 buf (to_file s).1 ∙ to_file_arbiter s
    write_if_arbiter false buf s = refl

    module _ ⦃ba : BlockingArbiter BA⦄ where
      blocked_send :
          (s : AsyncBodySink BA) (buf : Bytes)
          → Needs s buf
          → poll_send buf s ≡ write_blocking buf s
      unfolding poll_send
      blocked_send s buf h =
          rw (==_ne (length buf) 0 (omega (arith, h.some_byte)), h.short, h.big) refl

      -- A flush that needs to block asks the arbiter, once.
      pub Blocked-flush_arbiter :
          (s : AsyncBodySink BA)
          → Blocked s
          → (poll_flush_impl s).1.arbiter ≡ (ba.can_block s.arbiter).1
      unfolding poll_flush_impl write_blocking
      Blocked-flush_arbiter s h =
          ap (λ o. (flush_buf o s).1.arbiter) (h.waits)
          ∙ put_back_arbiter _ _
          ∙ ap (λ q. q.1.arbiter)
              (blocked_send (record s { buf = none }) h.buffer
                (record {
                  some_byte = h.needs.some_byte;
                  short = h.needs.short;
                  big = h.needs.big;
                }))
          ∙ write_if_arbiter _ h.buffer _

      long_arbiter :
          (n : ℕ) (s : AsyncBodySink BA) (buf : Bytes)
          → ((send_long n buf s).1.arbiter ≡ s.arbiter)
            ⊎ ((send_long n buf s).1.arbiter ≡ (ba.can_block s.arbiter).1)
      unfolding write_blocking
      long_arbiter n s buf = elim (Bool-cases (ltb s.tune.image.max_body n)) [
        | inl long ↦ inl (rw long refl)
        | inr short ↦ elim (Bool-cases (is_ram s.body && leb n s.tune.image.max_body_ram)) [
          | inl fit ↦ inl (rw (short, fit) (pure_arbiter _ _))
          | inr big ↦ inr (rw (short, big) (write_if_arbiter _ buf _))
        ]
      ]

      send_arbiter :
          (s : AsyncBodySink BA) (buf : Bytes)
          → ((poll_send buf s).1.arbiter ≡ s.arbiter)
            ⊎ ((poll_send buf s).1.arbiter ≡ (ba.can_block s.arbiter).1)
      unfolding poll_send
      send_arbiter s [] = inl refl
      send_arbiter s (x ∷ buf) =
          rw (==_ne (suc (length buf)) 0 (omega arith)) (long_arbiter _ s (x ∷ buf))

      flush_buf_arbiter :
          (ob : Option Bytes) (s : AsyncBodySink BA)
          → ((flush_buf ob s).1.arbiter ≡ s.arbiter)
            ⊎ ((flush_buf ob s).1.arbiter ≡ (ba.can_block s.arbiter).1)
      flush_buf_arbiter none s = inl refl
      flush_buf_arbiter (some b) s =
          rw (put_back_arbiter _ _) (send_arbiter (record s { buf = none }) b)

      -- Any flush leaves the arbiter, or asks it once.
      pub flush_arbiter :
          (s : AsyncBodySink BA)
          → ((poll_flush_impl s).1.arbiter ≡ s.arbiter)
            ⊎ ((poll_flush_impl s).1.arbiter ≡ (ba.can_block s.arbiter).1)
      unfolding poll_flush_impl
      flush_arbiter s = flush_buf_arbiter s.buf s
