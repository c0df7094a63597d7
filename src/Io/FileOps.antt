-- ===== src/Io/FileOps.antt =====
-- `std::fs::File`: its content, its position, and the faults that the coming calls will meet.
use body_image.Common.{
  ℕ, ◌+◌, ◌-◌, List, [], ◌∷◌, ◌++◌, Option, none, some, length, take, drop, replicate, Done,
  Outcome, ok, err,
}
use body_image.Io.Stream.{Bytes, IoError, Write}

-- A call that fails reports `error`; a failed `write_all` has written `done` bytes of the buffer.
pub record Fault : Type 0 where
  pub error : IoError
  pub done : ℕ

-- Each call takes one entry of `faults`: `none` lets it pass, and so does the empty list.
pub record File : Type 0 where
  pub content : Bytes
  pub pos : ℕ
  pub faults : List (Option Fault)

abbrev pub new_file : File
new_file = record { content = []; pos = 0; faults = [] }

-- The bytes `b` over those of `c` from `p` on; a gap behind the end is filled with zeros.
abbrev pub overwrite : ℕ → Bytes → Bytes → Bytes
overwrite p b c = take p (c ++ replicate (p - length c) 0) ++ (b ++ drop (p + length b) c)

abbrev pub put_bytes : Bytes → File → File
put_bytes b f = record f { content = overwrite f.pos b f.content; pos = f.pos + length b }

-- One call under the fault list: `fail` is the file that a failed call leaves.
abbrev pub attempt {ℓ} :
    {A : Type ℓ} → List (Option Fault) → (Fault → File) → A → File → Outcome IoError A × File
attempt [] fail a f = (ok a, f)
attempt (none ∷ rest) fail a f = (ok a, record f { faults = rest })
attempt (some x ∷ rest) fail a f = (err x.error, record (fail x) { faults = rest })

unfoldable pub file_write_all : Bytes → File → Outcome IoError (Done) × File
file_write_all b f = attempt f.faults (λ x. put_bytes (take x.done b) f) tt (put_bytes b f)

unfoldable pub file_flush : File → Outcome IoError (Done) × File
file_flush f = attempt f.faults (λ _. f) tt f

-- `seek(SeekFrom::Start(p))`, `seek(SeekFrom::End(0))` and `seek(SeekFrom::Current(0))`.
unfoldable pub seek_start : ℕ → File → Outcome IoError ℕ × File
seek_start p f = attempt f.faults (λ _. f) p (record f { pos = p })

unfoldable pub seek_end : File → Outcome IoError ℕ × File
seek_end f = attempt f.faults (λ _. f) (length f.content) (record f { pos = length f.content })

unfoldable pub stream_position : File → Outcome IoError ℕ × File
stream_position f = attempt f.faults (λ _. f) f.pos f

abbrev pub file_write : Write File
file_write = record { write_all = file_write_all; flush = file_flush }
