-- ===== src/Examples/Sinks.antt =====
-- The theorems on asynchronous sinks at a body that goes to a file.
use body_image.Common.{refl, [], ◌∷◌, ◌++◌, ◌<◌, ◌≤◌, some, ok, arith}
use body_image.Io.{Bytes, file_write_all}
use body_image.Image.{SinkState, BodySink, is_ram, push, write_all, write_back, write_each}
use body_image.Futio.{
  LenientArbiter, lenient_arbiter, StatefulArbiter, stateful_arbiter, AsyncBodySink, new_sink, send,
  write_buf, to_file, write_blocking, poll_send, poll_flush_impl, PermitBodySink, new_permit_sink,
  permit_start_send, flush_permitted, flush_waiting, permit_poll_flush, DispatchBodySink,
  new_dispatch_sink, dispatch_start_send, flush_dispatched, dispatch_flush, dispatch_poll_flush,
}
use body_image.Futio.Contract.{at_start, sending, polling, Delivers}
use body_image.Futio.Forward.{Fits, direct_forward, permit_forward, dispatch_forward}
use body_image.Futio.Sink.Direct.{direct_ops}
use body_image.Futio.Permit.Fulfils.{permit_ops}
use body_image.Futio.Dispatch.Fulfils.{dispatch_ops}
use body_image.Futio.Sink.Unblocked.{Untouched, flush-Untouched}
use body_image.Futio.Fetch.{sink_for, response_body}
use body_image.Futio.Tune.{
  set_stream_item_size, set_res_timeout, set_body_timeout, apply, apply_all, finish, build,
  default_futio,
}
use body_image.Futio.Tune.Bounds.{Ordered, futio_build-Ordered}
use body_image.Image.{with_fs}
use body_image.Io.{new_file}
use body_image.Examples.Host.{host, host-MakesFiles}
use body_image.Examples.Executor.{executor, executor-Runs, executor-Dispatches, small, small_futio}

abbrev one : Bytes
one = 7 ∷ []

abbrev three : Bytes
three = 1 ∷ 2 ∷ 3 ∷ []

abbrev begun : BodySink
begun = record { state = SinkState.ram (one ∷ []); len = 1 }

abbrev on_disk : BodySink
on_disk = record { state = SinkState.fs_write new_file; len = 0 }

begun-Fits : Fits (λ _. ⊥) small_futio begun one
unfolding is_ram
begun-Fits = record {
  holds = record { state = refl; len = refl };
  bounded = omega arith;
  in_ram = λ r. omega arith;
}

-- Three bytes are sent and flushed to a file, and one more is sent.
abbrev driven : AsyncBodySink LenientArbiter
driven = (send one (poll_flush_impl (send three (new_sink begun small_futio)).1).1).1

direct_forward_example :
    Delivers
      (λ _. ⊥)
      (λ _. ⊥)
      small
      direct_ops
      (one ++ three ++ one)
      (poll_flush_impl driven).0
      (poll_flush_impl driven).1
unfolding new_sink send poll_flush_impl poll_send write_blocking to_file write_buf push write_all
    write_back write_each is_ram file_write_all
direct_forward_example =
    direct_forward (λ _. ⊥) small_futio (host-MakesFiles (λ _. ⊥)) (λ x. x) begun one (three ++ one)
      begun-Fits (omega arith) driven
      (sending one (polling (sending three at_start refl) refl) refl)

abbrev driven_permit : PermitBodySink
driven_permit =
    (permit_start_send one
      (permit_poll_flush (permit_start_send three (new_permit_sink begun small_futio)).1).1).1

permit_forward_example :
    Delivers
      (λ _. ⊥)
      (λ _. Unit)
      small
      permit_ops
      (one ++ three ++ one)
      (permit_poll_flush driven_permit).0
      (permit_poll_flush driven_permit).1
unfolding new_sink send poll_flush_impl poll_send write_blocking to_file write_buf push write_all
    write_back write_each is_ram file_write_all new_permit_sink permit_start_send permit_poll_flush
    flush_waiting flush_permitted
permit_forward_example =
    permit_forward (λ _. ⊥) small_futio (host-MakesFiles (λ _. ⊥)) (λ x. x) begun one (three ++ one)
      begun-Fits (omega arith) tt refl executor-Runs driven_permit
      (sending one (polling (sending three at_start refl) refl) refl)

abbrev driven_dispatch : DispatchBodySink
driven_dispatch =
    (dispatch_start_send one
      (dispatch_poll_flush (dispatch_start_send three (new_dispatch_sink begun small_futio)).1).1).1

dispatch_forward_example :
    Delivers
      (λ _. ⊥)
      (λ _. Unit)
      small
      dispatch_ops
      (one ++ three ++ one)
      (dispatch_poll_flush driven_dispatch).0
      (dispatch_poll_flush driven_dispatch).1
unfolding new_sink send poll_flush_impl poll_send write_blocking to_file write_buf push write_all
    write_back write_each is_ram file_write_all new_dispatch_sink dispatch_start_send
    dispatch_poll_flush dispatch_flush flush_dispatched
dispatch_forward_example =
    dispatch_forward (λ _. ⊥) small_futio (host-MakesFiles (λ _. ⊥)) (λ x. x) begun one
      (three ++ one) begun-Fits (omega arith) executor-Dispatches driven_dispatch
      (sending one (polling (sending three at_start refl) refl) refl)

-- A sink that may not block, with a buffer that is too large for RAM.
abbrev full : AsyncBodySink StatefulArbiter
full = (send three (new_sink begun small_futio)).1

flush-Untouched_example : Untouched begun (poll_flush_impl full).1.body
unfolding new_sink send
flush-Untouched_example = flush-Untouched full refl

abbrev responded : AsyncBodySink LenientArbiter
responded = (send three (new_sink on_disk small_futio)).1

response_body_example :
    (3 ≤ 10)
    × Delivers
        (λ _. ⊥)
        (λ _. ⊥)
        small
        (direct_ops {BA = LenientArbiter})
        three
        (poll_flush_impl responded).0
        (poll_flush_impl responded).1
unfolding new_sink send poll_flush_impl poll_send write_blocking to_file write_buf push write_all
    write_back write_each is_ram file_write_all sink_for with_fs
response_body_example =
    response_body (λ _. ⊥) (some (ok 3)) small_futio on_disk three responded
      (host-MakesFiles (λ _. ⊥)) (λ x. x) (omega arith) refl (sending three at_start refl)

futio_build_example : (0 < 5) × Ordered (some 2) (some 3)
unfolding build apply_all apply finish
futio_build_example =
    futio_build-Ordered small (set_stream_item_size 5 ∷ set_res_timeout 2 ∷ set_body_timeout 3 ∷ [])
      (record (default_futio small) {
        stream_item_size = 5;
        res_timeout = some 2;
        body_timeout = some 3;
      })
      refl
