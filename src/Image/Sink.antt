-- ===== src/Image/Sink.antt =====
-- `BodySink` of body-image/src/lib.rs.
use body_image.Common.{
  ℕ, ◌+◌, ◌/◌, ◌==◌, ltb, if◌then◌else◌, Bool, true, false, u64, List, [], ◌∷◌, ◌++◌, length, Done,
  Outcome, ok, err, panic, hang,
}
use body_image.Common.Exec.{Exec, ◌>>◌, pure}
use body_image.Io.{Bytes, IoError, File, file_write_all}
use body_image.Storage.{Storage}
use body_image.Image.Errors.{BodyError, io}

pub data SinkState : Type 0 where
  ram : List Bytes → SinkState
  fs_write : File → SinkState

pub record BodySink : Type 0 where
  pub state : SinkState
  pub len : ℕ

-- The capacity is a hint for the allocator: the vector starts empty.
unfoldable pub with_ram_buffers : ℕ → BodySink
with_ram_buffers capacity = record { state = ram []; len = 0 }

unfoldable pub empty_sink : BodySink
unfolding with_ram_buffers
empty_sink = with_ram_buffers 0

unfoldable pub with_ram : ℕ → BodySink
unfolding with_ram_buffers empty_sink
with_ram size_estimate =
    if size_estimate == 0 then empty_sink else with_ram_buffers (size_estimate / 0x2000 + 1)

abbrev pub is_ram_state : SinkState → Bool
is_ram_state (ram _) = true
is_ram_state (fs_write _) = false

unfoldable pub is_ram : BodySink → Bool
is_ram s = is_ram_state s.state

unfoldable pub is_empty : BodySink → Bool
is_empty s = s.len == 0

-- `self.len += len`, once the file has taken the bytes.
abbrev pub written : ℕ → Outcome IoError Done × File → BodySink → Outcome IoError Done × BodySink
written n (ok _, f) s = (ok tt, record { state = fs_write f; len = u64 (s.len + n) })
written n (r, f) s = (r, record s { state = fs_write f })

abbrev pub append_to : SinkState → Bytes → BodySink → Outcome IoError Done × BodySink
append_to (ram v) buf s =
    (ok tt, record { state = ram (v ++ (buf ∷ [])); len = u64 (s.len + length buf) })
append_to (fs_write f) buf s = written (length buf) (file_write_all buf f) s

unfoldable pub push : Bytes → Exec BodySink IoError Done
push buf s = if ltb 0 (length buf) then append_to s.state buf s else (ok tt, s)

-- The deprecated `save` is `push` with the error converted.
unfoldable pub write_all : Bytes → Exec BodySink IoError Done
write_all buf s = if ltb 0 (length buf) then append_to s.state buf s else (ok tt, s)

-- The loop of `write_back` over the buffers.
unfoldable pub write_each : List Bytes → Exec File IoError Done
write_each [] = pure tt
write_each (b ∷ v) = do file_write_all b; write_each v

abbrev pub cut_sink : BodySink
cut_sink = record { state = ram []; len = 0 }

-- What is left of the sink by how the writing went; `olen` is its length before.
abbrev pub written_back : ℕ → Outcome IoError Done × File → Outcome BodyError Done × BodySink
written_back olen (ok _, f) = (ok tt, record { state = fs_write f; len = olen })
written_back olen (err e, f) = (err (io e), cut_sink)
written_back olen (panic, f) = (panic, cut_sink)
written_back olen (hang, f) = (hang, cut_sink)

abbrev pub write_back_to : ℕ → Outcome IoError File → List Bytes → Outcome BodyError Done × BodySink
write_back_to olen (ok f) v = written_back olen (write_each v f)
write_back_to olen (err e) v = (err (io e), cut_sink)
write_back_to olen panic v = (panic, cut_sink)
write_back_to olen hang v = (hang, cut_sink)

abbrev pub sink_in : Outcome IoError File → Outcome BodyError BodySink
sink_in (ok f) = ok (record { state = fs_write f; len = 0 })
sink_in (err e) = err (io e)
sink_in panic = panic
sink_in hang = hang

module _ ⦃st : Storage⦄ where
  open st use {tempfile_in}

  unfoldable pub with_fs : Bytes → Outcome BodyError BodySink
  with_fs dir = sink_in (tempfile_in dir)

  unfoldable pub write_back : Bytes → Exec BodySink BodyError Done
  write_back dir s = elim s.state [
    | ram v ↦ write_back_to s.len (tempfile_in dir) v
    | fs_write f ↦ (ok tt, s)
  ]
