-- ===== src/Image/State.antt =====
-- `BodyImage` of body-image/src/lib.rs, and `tmp_advise` of body-image/src/_mem_handle_ext.rs.
use body_image.Common.{
  ℕ, ◌==◌, ltb, if◌then◌else◌, Bool, true, false, List, [], ◌∷◌, length, Done, Outcome, ok, err,
  panic, hang, expect,
}
use body_image.Common.Exec.{Exec, ◌>>=◌, ◌>>◌, pure, convert}
use body_image.Io.{Bytes, IoError, Write, File, file_flush, seek_start, copy}
use body_image.Storage.{Storage}
use body_image.Image.Errors.{BodyError, io}
use body_image.Image.Sink.{SinkState, BodySink, with_ram_buffers, push}

module _ ⦃st : Storage⦄ where
  open st use {
    Mmap, ReadSlice, ReadPos, map_file, map_bytes, advise_sequential, advise_normal, slice_new,
    slice_len, slice_read, slice_mem_map, pos_new, pos_read, BytesMut, with_capacity, put,
    buf_bytes,
  }

  pub data ImageState : Type 0 where
    ram : List Bytes → ImageState
    fs_read : File → ImageState
    fs_read_slice : ReadSlice → ImageState
    mem_map : Mmap → ImageState

  pub record BodyImage : Type 0 where
    pub state : ImageState
    pub len : ℕ

  -- Also `Default`.
  abbrev pub empty : BodyImage
  empty = record { state = ImageState.ram []; len = 0 }

  -- `BodySink::prepare`: the file is flushed and wound back. The empty file gives the empty image.
  abbrev pub prepare_state : SinkState → ℕ → Outcome BodyError BodyImage
  prepare_state (SinkState.ram v) n = ok (record { state = ImageState.ram v; len = n })
  prepare_state (SinkState.fs_write f) n =
      if n == 0
      then ok empty
      else let (r, f') = (file_flush >> seek_start 0) f in
        elim r [
          | ok _ ↦ ok (record { state = ImageState.fs_read f'; len = n })
          | err e ↦ err (io e)
          | panic ↦ panic
          | hang ↦ hang
        ]

  unfoldable pub prepare : BodySink → Outcome BodyError BodyImage
  prepare s = prepare_state s.state s.len

  -- `from_file`, in both of its forms.
  unfoldable pub image_from_file : File → ℕ → BodyImage
  image_from_file file length =
      if ltb 0 length then record { state = ImageState.fs_read file; len = length } else empty

  -- `from_read_slice`, in both of its forms.
  unfoldable pub image_from_read_slice : ReadSlice → BodyImage
  image_from_read_slice rslice =
      let len = slice_len rslice in
      if ltb 0 len then record { state = ImageState.fs_read_slice rslice; len = len } else empty

  -- The two `expect`s turn an error into a panic.
  unfoldable pub from_slice : Bytes → Outcome BodyError BodyImage
  unfolding with_ram_buffers push prepare
  from_slice buf =
      let (r, bs) = push buf (with_ram_buffers 1) in
      elim r [ ok _ ↦ expect (prepare bs) | err e ↦ panic | panic ↦ panic | hang ↦ hang ]

  abbrev pub is_ram_image : ImageState → Bool
  is_ram_image (ImageState.ram _) = true
  is_ram_image _ = false

  abbrev pub is_mem_map : ImageState → Bool
  is_mem_map (ImageState.mem_map _) = true
  is_mem_map _ = false

  -- `BodyImage::mem_map`; a failed mapping leaves the image as it was.
  abbrev mapped : Outcome IoError Mmap → BodyImage → Outcome BodyError Done × BodyImage
  mapped (ok m) b = (ok tt, record b { state = ImageState.mem_map m })
  mapped (err e) b = (err (io e), b)
  mapped panic b = (panic, b)
  mapped hang b = (hang, b)

  abbrev map_state : ImageState → BodyImage → Outcome BodyError Done × BodyImage
  map_state (ImageState.fs_read file) b =
      if ltb 0 b.len then mapped (map_file file) b else (panic, b)
  map_state (ImageState.fs_read_slice rslice) b = mapped (slice_mem_map rslice) b
  map_state _ b = (ok tt, b)

  unfoldable pub mem_map_image : BodyImage → Outcome BodyError Done × BodyImage
  mem_map_image b = map_state b.state b

  -- The loop of `gather` over the buffers.
  unfoldable pub put_each : List Bytes → BytesMut → BytesMut
  put_each [] buf = buf
  put_each (b ∷ v) buf = put_each v (put b buf)

  abbrev pub gather_ram : List Bytes → BodyImage → Outcome BodyError Done × BodyImage
  gather_ram v b =
      let newb = buf_bytes (put_each v (with_capacity b.len)) in
      if length newb == b.len
      then (ok tt, record b { state = ImageState.ram (newb ∷ []) })
      else (panic, record b { state = ImageState.ram [] })

  abbrev gather_state : ImageState → BodyImage → Outcome BodyError Done × BodyImage
  gather_state (ImageState.ram v) b = if ltb 1 (length v) then gather_ram v b else (ok tt, b)
  gather_state _ b = (ok tt, b)

  unfoldable pub gather : BodyImage → Outcome BodyError Done × BodyImage
  unfolding put_each
  gather b = gather_state b.state b

  pub data BodyReader : Type 0 where
    contiguous : Bytes → BodyReader
    scattered : List Bytes → BodyReader
    file_slice : ReadSlice → BodyReader

  abbrev pub reader_of : ImageState → ℕ → BodyReader
  reader_of (ImageState.ram []) n = contiguous []
  reader_of (ImageState.ram (b ∷ [])) n = contiguous b
  reader_of (ImageState.ram v) n = scattered v
  reader_of (ImageState.fs_read f) n = file_slice (slice_new f 0 n)
  reader_of (ImageState.fs_read_slice rslice) n = file_slice rslice
  reader_of (ImageState.mem_map m) n = contiguous (map_bytes m)

  unfoldable pub reader : BodyImage → BodyReader
  reader b = reader_of b.state b.len

  pub data ExplodedImage : Type 0 where
    ram : List Bytes → ExplodedImage
    fs_read : ReadSlice → ExplodedImage
    mem_map : Mmap → ExplodedImage

  abbrev pub explode_state : ImageState → ℕ → ExplodedImage
  explode_state (ImageState.ram v) n = ExplodedImage.ram v
  explode_state (ImageState.fs_read f) n = ExplodedImage.fs_read (slice_new f 0 n)
  explode_state (ImageState.fs_read_slice rs) n = ExplodedImage.fs_read rs
  explode_state (ImageState.mem_map m) n = ExplodedImage.mem_map m

  unfoldable pub explode : BodyImage → ExplodedImage
  explode b = explode_state b.state b.len

  -- `MemHandleExt::tmp_advise`: the advice is taken back whatever `f` returned.
  abbrev pub tmp_advise : {W : Type 0} → Mmap → Exec W IoError Done → Exec W IoError Done
  tmp_advise m f w = elim (advise_sequential m) [
    | ok _ ↦
        (let (res, w') = f w in
          (elim (advise_normal m) [ ok _ ↦ res | err e ↦ err e | panic ↦ panic | hang ↦ hang ], w'))
    | err e ↦ (err e, w)
    | panic ↦ (panic, w)
    | hang ↦ (hang, w)
  ]

  module _ {W : Type 0} (wr : Write W) where
    open wr use {write_all}

    -- The loop of `write_to` over the buffers in RAM.
    unfoldable pub write_bufs : List Bytes → Exec W IoError Done
    write_bufs [] = pure tt
    write_bufs (b ∷ v) = write_all b >> write_bufs v

    abbrev pub write_state : ℕ → ImageState → ℕ → Exec W IoError Done
    write_state fuel (ImageState.ram v) n = write_bufs v
    write_state fuel (ImageState.mem_map m) n = tmp_advise m (write_all (map_bytes m))
    write_state fuel (ImageState.fs_read f) n = copy pos_read wr fuel (pos_new f n)
    write_state fuel (ImageState.fs_read_slice rslice) n = copy slice_read wr fuel rslice

    -- `BodyImage::write_to`. The fuel counts the reads from a file.
    unfoldable pub write_to : ℕ → BodyImage → Exec W BodyError ℕ
    unfolding write_bufs copy
    write_to fuel b = convert io (write_state fuel b.state b.len) >>= λ _. pure b.len
