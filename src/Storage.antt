-- ===== src/Storage.antt =====
-- What the program takes from the crates `tempfile`, `memmap`, `olio` and `bytes`: a parameter.
use body_image.Common.{ℕ, Done, Outcome}
use body_image.Io.{Bytes, IoError, Read, File}

pub record Storage : Type 1 where
  -- `tempfile::tempfile_in`, on a directory path.
  pub tempfile_in : Bytes → Outcome IoError File
  -- `memmap::Mmap`: mapping a file, and the mapped bytes.
  pub Mmap : Type 0
  pub map_file : File → Outcome IoError Mmap
  pub map_bytes : Mmap → Bytes
  -- `MemHandle::advise`, for `MemAdvice::Sequential` and `MemAdvice::Normal`.
  pub advise_sequential : Mmap → Outcome IoError Done
  pub advise_normal : Mmap → Outcome IoError Done
  -- `olio::fs::rc::ReadSlice`: a range of a shared file with its own position.
  pub ReadSlice : Type 0
  pub slice_new : File → ℕ → ℕ → ReadSlice
  pub slice_len : ReadSlice → ℕ
  pub slice_read : Read ReadSlice
  pub slice_mem_map : ReadSlice → Outcome IoError Mmap
  -- `olio::fs::rc::ReadPos`: a shared file with its own position.
  pub ReadPos : Type 0
  pub pos_new : File → ℕ → ReadPos
  pub pos_read : Read ReadPos
  pub tell : ReadPos → ℕ
  pub pos_seek_start : ℕ → ReadPos → Outcome IoError ℕ × ReadPos
  pub pos_seek_current : ℕ → ReadPos → Outcome IoError ℕ × ReadPos
  pub subslice : ReadPos → ℕ → ℕ → ReadSlice
  -- `bytes::BytesMut`: `put` stands for filling the front of `chunk_mut` and `advance_mut`.
  pub BytesMut : Type 0
  pub with_capacity : ℕ → BytesMut
  pub chunk_len : BytesMut → ℕ
  pub remaining_mut : BytesMut → ℕ
  pub put : Bytes → BytesMut → BytesMut
  pub clear : BytesMut → BytesMut
  pub buf_bytes : BytesMut → Bytes
