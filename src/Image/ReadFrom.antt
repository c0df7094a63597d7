-- ===== src/Image/ReadFrom.antt =====
-- `BodyImage::read_from` and `read_to_body_fs` of body-image/src/lib.rs.
pub mod Steps
pub mod Fill
pub mod Whole
use body_image.Common.{
  ℕ, zero, suc, ◌+◌, ◌==◌, ltb, if◌then◌else◌, Bool, true, false, u64, [], ◌∷◌, length, Done,
  Outcome, ok, err, panic, hang,
}
use body_image.Common.Exec.{Exec}
use body_image.Io.{Bytes, IoError, interrupted, Read}
use body_image.Storage.{Storage}
use body_image.Image.Errors.{BodyError, io, body_too_long}
use body_image.Image.Sink.{BodySink, with_fs, with_ram, is_ram, write_all, write_back, push}
use body_image.Image.State.{BodyImage, prepare}
use body_image.Image.Tune.{Tunables}

-- What follows a call on the sink, which goes on with the sink that the call left.
abbrev pub after {κ} :
    {A : Type κ}
    → Outcome IoError Done × BodySink
    → (BodySink → Outcome BodyError A)
    → Outcome BodyError A
after (ok _, body) k = k body
after (err e, body) k = err (io e)
after (panic, body) k = panic
after (hang, body) k = hang

module _ ⦃st : Storage⦄ {R : Type 0} (rd : Read R) (tune : Tunables) where
  open st use {BytesMut, with_capacity, chunk_len, remaining_mut, put, clear, buf_bytes}
  open rd use {read}

  -- One round of the loop `'fill` after its call of `read`; `go` is the next round.
  abbrev pub fill_next :
      (BytesMut → Exec R BodyError BytesMut)
      → BytesMut
      → Outcome IoError Bytes
      → Exec R BodyError BytesMut
  fill_next go buf (ok []) r = (ok buf, r)
  fill_next go buf (ok (b ∷ bs)) r =
      let buf' = put (b ∷ bs) buf in
      if ltb (remaining_mut buf') 1024 then (ok buf', r) else go buf' r
  fill_next go buf (err interrupted) r = go buf r
  fill_next go buf (err e) r = (err (io e), r)
  fill_next go buf panic r = (panic, r)
  fill_next go buf hang r = (hang, r)

  -- The loop `'fill`: it fills `buf` until the end of the input, or until less than 1 KiB is free.
  -- The fuel of the loops counts calls of `read`.
  unfoldable pub fill : ℕ → BytesMut → Exec R BodyError BytesMut
  fill zero buf r = (hang, r)
  fill (suc fuel) buf r = let (res, r') = read (chunk_len buf) r in fill_next (fill fuel) buf res r'

  -- One round of the loop of `read_to_body_fs` after its call of `read`.
  abbrev pub fs_next :
      (ℕ → BytesMut → BodySink → R → Outcome BodyError BodyImage)
      → ℕ
      → BytesMut
      → BodySink
      → Outcome IoError Bytes
      → R
      → Outcome BodyError BodyImage
  fs_next go size buf body (ok []) r = prepare body
  fs_next go size buf body (ok (b ∷ bs)) r =
      let size' = u64 (size + length (b ∷ bs)) in
      let buf' = put (b ∷ bs) buf in
      if ltb tune.max_body size'
      then err (body_too_long size')
      else after (write_all (buf_bytes buf') body) (λ body'. go size' (clear buf') body' r)
  fs_next go size buf body (err interrupted) r = go size buf body r
  fs_next go size buf body (err e) r = err (io e)
  fs_next go size buf body panic r = panic
  fs_next go size buf body hang r = hang

  -- The loop of `read_to_body_fs`; `size` is what this loop has read.
  unfoldable pub fs_loop : ℕ → ℕ → BytesMut → BodySink → R → Outcome BodyError BodyImage
  fs_loop zero size buf body r = hang
  fs_loop (suc fuel) size buf body r =
      let (res, r') = read (chunk_len buf) r in fs_next (fs_loop fuel) size buf body res r'

  unfoldable pub read_to_body_fs : ℕ → BodySink → R → Outcome BodyError BodyImage
  read_to_body_fs fuel body r =
      if is_ram body then panic else fs_loop fuel 0 (with_capacity tune.buffer_size_fs) body r

  -- What follows `write_back`: the buffer is written, and the rest of the input is read.
  abbrev pub spill_next :
      ℕ → Bytes → Outcome BodyError Done → BodySink → R → Outcome BodyError BodyImage
  spill_next fuel b (ok _) body r = after (write_all b body) (λ body'. read_to_body_fs fuel body' r)
  spill_next fuel b (err e) body r = err e
  spill_next fuel b panic body r = panic
  spill_next fuel b hang body r = hang

  unfoldable pub spill : ℕ → Bytes → BodySink → R → Outcome BodyError BodyImage
  spill fuel b body r =
      let (done, body') = write_back tune.temp_dir body in spill_next fuel b done body' r

  -- One round of the loop `'eof` after its buffer was filled; `go` is the next round, and `rest`
  -- the way by the file.
  abbrev pub eof_next :
      (ℕ → BodySink → R → Outcome BodyError BodyImage)
      → (Bytes → BodySink → R → Outcome BodyError BodyImage)
      → ℕ
      → BodySink
      → Outcome BodyError BytesMut
      → R
      → Outcome BodyError BodyImage
  eof_next go rest size body (ok buf) r =
      let b = buf_bytes buf in
      let size' = u64 (size + length b) in
      if length b == 0
      then prepare body
      else if ltb tune.max_body size'
      then err (body_too_long size')
      else if ltb tune.max_body_ram size'
      then rest b body r
      else after (push b body) (λ body'. go size' body' r)
  eof_next go rest size body (err e) r = err e
  eof_next go rest size body panic r = panic
  eof_next go rest size body hang r = hang

  -- The loop `'eof`; `size` is what has been read so far.
  unfoldable pub eof_loop : ℕ → ℕ → BodySink → R → Outcome BodyError BodyImage
  eof_loop zero size body r = hang
  eof_loop (suc fuel) size body r =
      let (res, r') = fill fuel (with_capacity tune.buffer_size_ram) r in
      eof_next (eof_loop fuel) (spill fuel) size body res r'

  -- What follows `with_fs`.
  abbrev pub with_fs_next : ℕ → Outcome BodyError BodySink → R → Outcome BodyError BodyImage
  with_fs_next fuel (ok b) r = read_to_body_fs fuel b r
  with_fs_next fuel (err e) r = err e
  with_fs_next fuel panic r = panic
  with_fs_next fuel hang r = hang

  unfoldable pub read_from : ℕ → ℕ → R → Outcome BodyError BodyImage
  read_from fuel len_estimate r =
      if ltb tune.max_body_ram len_estimate
      then with_fs_next fuel (with_fs tune.temp_dir) r
      else eof_loop fuel 0 (with_ram len_estimate) r
