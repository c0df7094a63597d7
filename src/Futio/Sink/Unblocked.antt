-- ===== src/Futio/Sink/Unblocked.antt =====
-- A flush that is not allowed to block.
use body_image.Common.{
  ℕ, suc, ◌≡◌, refl, [], ◌∷◌, length, true, false, ◌&&◌, ltb, leb, Option, none, some, Done,
  Outcome, ok, err, panic, hang, arith, Bool-cases, &&_left, ==_ne, inl, inr,
}
use body_image.Common.Exec.{continue, pure}
use body_image.Io.{Bytes}
use body_image.Storage.{Storage}
use body_image.Image.{SinkState, BodySink, is_ram_state, is_ram, append_to, push}
use body_image.Futio.Crates.{Runtime}
use body_image.Futio.Errors.{FutioError}
use body_image.Futio.Arbiter.{BlockingArbiter}
use body_image.Futio.Sink.{
  AsyncBodySink, push_buf, write_blocking, send_long, poll_send, put_back, flush_buf,
  poll_flush_impl,
}

append_to-in_ram :
    (t : SinkState) (b : Bytes) (s : BodySink)
    → is_ram_state t ≡ true
    → is_ram (append_to t b s).1 ≡ true
unfolding is_ram
append_to-in_ram (SinkState.ram v) b s h = refl
append_to-in_ram (SinkState.fs_write f) b s h = cc

push-in_ram : (b : Bytes) (s : BodySink) → is_ram s ≡ true → is_ram (push b s).1 ≡ true
unfolding push is_ram
push-in_ram b s h = elim (Bool-cases (ltb 0 (length b))) [
  | inl some_byte ↦ rw some_byte (append_to-in_ram s.state b s h)
  | inr no_byte ↦ rw no_byte h
]

-- The file is not touched, and what is in RAM stays there.
pub record Untouched (b b' : BodySink) : Type 0 where
  pub file : is_ram b ≡ false → b' ≡ b
  pub ram : is_ram b ≡ true → is_ram b' ≡ true

abbrev pub untouched : (b : BodySink) → Untouched b b
untouched b = record { file = λ f. refl; ram = λ r. r }

module _ ⦃rt : Runtime⦄ {BA : Type 0} where
  pure_body :
      (r : Outcome FutioError Done) (s : AsyncBodySink BA)
      → (continue {B = Option Bytes} r (λ _. pure none) s).1.body ≡ s.body
  pure_body (ok _) s = refl
  pure_body (err e) s = refl
  pure_body panic s = refl
  pure_body hang s = refl

  put_back_body :
      (r : Outcome FutioError (Option Bytes)) (s : AsyncBodySink BA)
      → (put_back r s).1.body ≡ s.body
  put_back_body (ok none) s = refl
  put_back_body (ok (some b)) s = refl
  put_back_body (err e) s = refl
  put_back_body panic s = refl
  put_back_body hang s = refl

  push-Untouched :
      (buf : Bytes) (s : AsyncBodySink BA)
      → is_ram s.body ≡ true
      → Untouched s.body (push_buf buf s).1.body
  push-Untouched buf s h =
      rw (pure_body _ _) (record { file = λ f. cc; ram = λ r. push-in_ram buf s.body h })

  module _ ⦃st : Storage⦄ ⦃ba : BlockingArbiter BA⦄ where
    long-Untouched :
        (n : ℕ) (s : AsyncBodySink BA) (buf : Bytes)
        → (ba.can_block s.arbiter).0 ≡ false
        → Untouched s.body (send_long n buf s).1.body
    unfolding write_blocking
    long-Untouched n s buf h = elim (Bool-cases (ltb s.tune.image.max_body n)) [
      | inl long ↦ rw long (untouched s.body)
      | inr short ↦ elim (Bool-cases (is_ram s.body && leb n s.tune.image.max_body_ram)) [
        | inl fit ↦ rw (short, fit) (push-Untouched buf s (&&_left _ _ fit))
        | inr big ↦ rw (short, big, h) (untouched s.body)
      ]
    ]

    send-Untouched :
        (s : AsyncBodySink BA) (buf : Bytes)
        → (ba.can_block s.arbiter).0 ≡ false
        → Untouched s.body (poll_send buf s).1.body
    unfolding poll_send
    send-Untouched s [] h = untouched s.body
    send-Untouched s (x ∷ buf) h =
        rw (==_ne (suc (length buf)) 0 (omega arith)) (long-Untouched _ s (x ∷ buf) h)

    flush_buf-Untouched :
        (ob : Option Bytes) (s : AsyncBodySink BA)
        → (ba.can_block s.arbiter).0 ≡ false
        → Untouched s.body (flush_buf ob s).1.body
    flush_buf-Untouched none s h = untouched s.body
    flush_buf-Untouched (some b) s h =
        rw (put_back_body _ _) (send-Untouched (record s { buf = none }) b h)

    -- For an arbiter that does not allow blocking, whatever waits in the sink: a flush leaves a
    -- body that is in a file exactly as it is, and leaves one that is in RAM in RAM. So it does no
    -- blocking operation.
    pub flush-Untouched :
        (s : AsyncBodySink BA)
        → (ba.can_block s.arbiter).0 ≡ false
        → Untouched s.body (poll_flush_impl s).1.body
    unfolding poll_flush_impl
    flush-Untouched s h = flush_buf-Untouched s.buf s h
