-- ===== src/Examples/Streams.antt =====
-- The theorems on asynchronous streams and their buffers at concrete inputs.
use body_image.Common.{◌-◌, ◌≡◌, ◌↔◌, refl, [], ◌∷◌, ◌++◌, true, arith}
use body_image.Io.{Bytes, IoError, new_file}
use body_image.Image.{ImageState, BodyImage, explode}
use body_image.Futio.{LenientArbiter, lenient_arbiter, stateful_arbiter}
use body_image.Futio.Buf.{UniBodyBuf, mem_map, split_if, advance, bytes_output, uni_output}
use body_image.Futio.Buf.Outputs.{AdviceLaws, OutputLaws, bytes-OutputLaws, uni-OutputLaws}
use body_image.Futio.Buf.Splits.{Split, split_if-Split, Advanced, advance-Advanced}
use body_image.Futio.Stream.{AsyncBodyImage, new_stream, poll_impl, read_chunk, is_end_stream}
use body_image.Futio.Stream.Whole.{at_start, an_item, Slices, GoesOn, stream-GoesOn, stream_end}
use body_image.Futio.PermitStream.{
  PermitBodyImage, new_permit_stream, permit_poll_next, poll_waiting, poll_permitted,
}
use body_image.Futio.PermitStream.Whole.{permit_stream-GoesOn}
use body_image.Futio.Polls.{PollsTo, Continues}
use body_image.Futio.DispatchStream.{
  dispatch_read, poll_reading, DispatchBodyImage, new_dispatch_stream, dispatch_poll_next,
}
use body_image.Futio.DispatchStream.Whole.{dispatch_stream-GoesOn}
use body_image.Examples.Host.{host}
use body_image.Examples.Windows.{window_Serves, serves_window}
use body_image.Examples.Executor.{executor, executor-Runs, executor-Dispatches, small_futio}

advice : AdviceLaws (λ _. ⊥)
advice = record { sequential = λ m. tt; normal = λ m. tt }

slices : Slices (λ _. ⊥) window_Serves 1
slices = record {
  shows = λ f n. (let e : n - 0 ≡ n = omega arith in rw e refl);
  patient = λ f n. omega arith;
}

-- An image of five bytes in a file.
abbrev five : Bytes
five = 1 ∷ 2 ∷ 3 ∷ 4 ∷ 5 ∷ []

abbrev filed : BodyImage
filed = record { state = ImageState.fs_read (record new_file { content = five }); len = 5 }

abbrev polled : AsyncBodyImage LenientArbiter
polled = (poll_impl {B = Bytes} 1 (new_stream filed small_futio)).1

stream-GoesOn_example :
    GoesOn (λ _. ⊥) {B = Bytes} true five (five ++ []) (poll_impl {B = Bytes} 1 polled).0
unfolding new_stream poll_impl read_chunk explode
stream-GoesOn_example =
    stream-GoesOn (λ _. ⊥) window_Serves 1 (bytes-OutputLaws (λ _. ⊥) advice) filed small_futio five
      five polled slices (record { state = (refl, refl); len = refl }) (omega arith) (omega arith)
      (an_item five at_start refl)

stream_end_example : (is_end_stream polled ≡ true) ↔ (five ≡ five)
unfolding new_stream poll_impl read_chunk explode
stream_end_example =
    stream_end (λ _. ⊥) window_Serves 1 (uni-OutputLaws (λ _. ⊥) advice) filed small_futio five five
      polled slices (record { state = (refl, refl); len = refl }) (omega arith) (omega arith)
      (an_item (UniBodyBuf.bytes five) at_start refl)

-- What a permit may fail with.
abbrev Canceled : IoError → Type 0
Canceled (IoError.other c) = Unit
Canceled _ = ⊥

canceling_laws : OutputLaws Canceled bytes_output
canceling_laws = bytes-OutputLaws Canceled (record { sequential = λ m. tt; normal = λ m. tt })

canceling_slices : Slices Canceled (serves_window Canceled) 1
canceling_slices = record {
  shows = λ f n. (let e : n - 0 ≡ n = omega arith in rw e refl);
  patient = λ f n. omega arith;
}

abbrev permitted : PermitBodyImage
permitted = (permit_poll_next Bytes 1 (new_permit_stream filed small_futio)).1

permit_stream-GoesOn_example :
    Continues {B = Bytes} Canceled five (five ++ []) (permit_poll_next Bytes 1 permitted).0
unfolding new_permit_stream permit_poll_next poll_waiting poll_permitted new_stream poll_impl
    read_chunk explode
permit_stream-GoesOn_example =
    permit_stream-GoesOn Canceled (serves_window Canceled) 1 small_futio canceling_laws
      executor-Runs (λ c. tt) tt refl filed five five permitted canceling_slices
      (record { state = (refl, refl); len = refl }) (omega arith) (omega arith)
      (PollsTo.an_item five PollsTo.at_start refl)

abbrev dispatched : DispatchBodyImage Bytes
dispatched = (dispatch_poll_next 1 (new_dispatch_stream filed small_futio)).1

dispatch_stream-GoesOn_example :
    Continues {B = Bytes} Canceled five (five ++ []) (dispatch_poll_next 1 dispatched).0
unfolding new_dispatch_stream dispatch_poll_next dispatch_read poll_reading new_stream poll_impl
    read_chunk explode
dispatch_stream-GoesOn_example =
    dispatch_stream-GoesOn Canceled (serves_window Canceled) 1 executor-Dispatches canceling_laws
      (λ c. tt) filed small_futio five five dispatched canceling_slices
      (record { state = (refl, refl); len = refl }) (omega arith) (omega arith)
      (PollsTo.an_item five PollsTo.at_start refl)

-- A range of a mapping.
abbrev ranged : UniBodyBuf
ranged = mem_map (record { mm = five; pos = 1; len = 5 })

split_if-Split_example : Split 2 (2 ∷ 3 ∷ 4 ∷ 5 ∷ []) (split_if 2 ranged).0 (split_if 2 ranged).1
split_if-Split_example = split_if-Split ranged 2 (omega arith, omega arith) (omega arith)

advance-Advanced_example : Advanced 3 ranged (advance 3 ranged).0 (advance 3 ranged).1
advance-Advanced_example = advance-Advanced ranged 3 (omega arith, omega arith)
