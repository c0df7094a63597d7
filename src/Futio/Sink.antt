-- ===== src/Futio/Sink.antt =====
-- `AsyncBodySink` of body-image-futio/src/sink.rs.
pub mod Accepts
pub mod Flush
pub mod Direct
pub mod Granted
pub mod Stuck
pub mod Allowed
pub mod Unblocked
use body_image.Common.{
  ℕ, ◌+◌, ◌==◌, ltb, leb, if◌then◌else◌, Bool, ◌&&◌, u64, length, Option, none, some, Done, Outcome,
  ok, err, panic, hang, assert,
}
use body_image.Common.Exec.{Exec, ◌>>=◌, ◌>>◌, pure, lift, convert}
use body_image.Io.{Bytes, IoError, interrupted}
use body_image.Storage.{Storage}
use body_image.Image.{BodyError, body_too_long, BodySink, is_ram, push, write_all, write_back}
use body_image.Futio.Crates.{Runtime, Poll, ready, pending}
use body_image.Futio.Errors.{FutioError, body, from_io}
use body_image.Futio.Arbiter.{BlockingArbiter}
use body_image.Futio.Tune.{FutioTunables}

-- An `InputBuf` is the bytes that it has left: `remaining` is their number.
pub record AsyncBodySink ⦃rt : Runtime⦄ (BA : Type 0) : Type 0 where
  pub body : BodySink
  pub tune : FutioTunables
  pub arbiter : BA
  pub buf : Option Bytes

-- How the write of `buf` ended: an interrupted one gives the buffer back.
abbrev pub sent : Bytes → Outcome IoError Done → Outcome FutioError (Option Bytes)
sent buf (ok _) = ok none
sent buf (err interrupted) = ok (some buf)
sent buf (err e) = err (from_io e)
sent buf panic = panic
sent buf hang = hang

module _ ⦃rt : Runtime⦄ {BA : Type 0} where
  -- A call on the body of the sink.
  abbrev pub on_body : {E A : Type 0} → Exec BodySink E A → Exec (AsyncBodySink BA) E A
  on_body call s = let (r, b) = call s.body in (r, record s { body = b })

  unfoldable pub write_buf : Bytes → Exec (AsyncBodySink BA) FutioError (Option Bytes)
  write_buf buf s = let (r, s') = on_body (write_all buf) s in (sent buf r, s')

  abbrev pub push_buf : Bytes → Exec (AsyncBodySink BA) FutioError (Option Bytes)
  push_buf buf = convert from_io (on_body (push buf)) >>= λ _. pure none

  module _ ⦃st : Storage⦄ where
    unfoldable pub to_file : Exec (AsyncBodySink BA) FutioError Done
    to_file s =
        if is_ram s.body
        then convert body (on_body (write_back s.tune.image.temp_dir)) s
        else (ok tt, s)

    -- Once the arbiter has answered.
    abbrev pub write_if : Bool → Bytes → Exec (AsyncBodySink BA) FutioError (Option Bytes)
    write_if allowed buf s = if allowed then (to_file >> write_buf buf) s else (ok (some buf), s)

  -- What is left of the buffer goes back into the sink.
  abbrev pub put_back :
      Outcome FutioError (Option Bytes) → Exec (AsyncBodySink BA) FutioError (Poll Done)
  put_back (ok none) s = (ok (ready tt), s)
  put_back (ok (some b)) s = (ok pending, record s { buf = some b })
  put_back (err e) s = (err e, s)
  put_back panic s = (panic, s)
  put_back hang s = (hang, s)

  unfoldable pub new_sink : ⦃ba : BlockingArbiter BA⦄ → BodySink → FutioTunables → AsyncBodySink BA
  new_sink ⦃ba⦄ b t = record { body = b; tune = t; arbiter = ba.initial; buf = none }

  module _ ⦃st : Storage⦄ ⦃ba : BlockingArbiter BA⦄ where
    unfoldable pub write_blocking : Bytes → Exec (AsyncBodySink BA) FutioError (Option Bytes)
    unfolding to_file write_buf
    write_blocking buf s =
        let (allowed, a) = ba.can_block s.arbiter in write_if allowed buf (record s { arbiter = a })

    abbrev pub send_long : ℕ → Bytes → Exec (AsyncBodySink BA) FutioError (Option Bytes)
    send_long new_len buf s =
        if ltb s.tune.image.max_body new_len
        then (err (body (body_too_long new_len)), s)
        else if is_ram s.body && leb new_len s.tune.image.max_body_ram
        then push_buf buf s
        else write_blocking buf s

    -- An answer `some buf` gives the buffer back, for another try.
    unfoldable pub poll_send : Bytes → Exec (AsyncBodySink BA) FutioError (Option Bytes)
    unfolding write_blocking
    poll_send buf s =
        if length buf == 0 then (ok none, s) else send_long (u64 (s.body.len + length buf)) buf s

    abbrev pub flush_buf : Option Bytes → Exec (AsyncBodySink BA) FutioError (Poll Done)
    flush_buf none s = (ok (ready tt), s)
    flush_buf (some b) s = let (r, s') = poll_send b (record s { buf = none }) in put_back r s'

    -- Also `poll_ready`, `poll_flush` and `poll_close` of `AsyncBodySink`.
    unfoldable pub poll_flush_impl : Exec (AsyncBodySink BA) FutioError (Poll Done)
    unfolding poll_send
    poll_flush_impl s = flush_buf s.buf s

  abbrev pub send_to : Option Bytes → Bytes → Exec (AsyncBodySink BA) FutioError Done
  send_to none b s = (ok tt, record s { buf = some b })
  send_to (some _) b s = (panic, s)

  -- Also `start_send`. A buffer that is still there fails the assertion.
  unfoldable pub send : Bytes → Exec (AsyncBodySink BA) FutioError Done
  send b s = send_to s.buf b s

  abbrev pub into_inner : AsyncBodySink BA → Outcome FutioError BodySink
  into_inner s = ok s.body
