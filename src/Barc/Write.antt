-- ===== src/Barc/Write.antt =====
-- `BarcWriter` of barc/src/lib.rs: the blocks of a record, and the record in the file.
pub mod Blocks
pub mod Bodies
pub mod Payload
pub mod Heads
pub mod Whole
use body_image.Common.{
  ℕ, ◌+◌, ◌-◌, ◌==◌, ltb, leb, if◌then◌else◌, Bool, true, false, ◌&&◌, u64, List, [], ◌∷◌, Done,
  Outcome, ok, err, panic, hang, map_ok, assert, ascii,
}
use body_image.Common.Exec.{Exec, ◌>>=◌, ◌>>◌, pure, lift, convert}
use body_image.Io.{
  Bytes, Write, File, file_write, file_flush, seek_start, seek_end, stream_position,
}
use body_image.Storage.{Storage}
use body_image.Image.{BodyImage, write_to}
use body_image.Barc.Errors.{BarcError, body, io, Compression, plain, gzip, brotli}
use body_image.Barc.Types.{RecordHead, v2_head_size, v2_max_record, v2_max_hblock, v2_reserve_head}
use body_image.Barc.Recorded.{Http, Record}
use body_image.Barc.Head.{write_all_len, write_record_head}
use body_image.Barc.Compress.{Strategy}
use body_image.Barc.Codec.{
  Codecs, Encoder, mode, encoder_write, drop_encoder, finish_encoder, wrap_encoder,
}

abbrev pub crlf : Bytes
crlf = 13 ∷ 10 ∷ []

module _ {W : Type 0} (wr : Write W) where
  -- The loop of `write_headers` over the entries of the map; `size` is what it has written.
  unfoldable pub write_entries : List (Bytes × Bytes) → ℕ → Exec W BarcError ℕ
  write_entries [] size = pure size
  write_entries ((key, value) ∷ rest) size = do
    k ← write_all_len wr key
    colon ← write_all_len wr (ascii ": ")
    v ← write_all_len wr value
    end ← write_all_len wr crlf
    write_entries rest (u64 (size + k + colon + v + end))

  -- The end padding of a block that is not empty.
  unfoldable pub pad : Bool → ℕ → Exec W BarcError ℕ
  pad with_crlf size =
      if with_crlf && ltb 0 size
      then (write_all_len wr crlf >>= λ n. pure (u64 (size + n)))
      else pure size

  -- `write_headers`, over the entries of the map.
  unfoldable pub write_headers : Bool → List (Bytes × Bytes) → Exec W BarcError ℕ
  unfolding write_entries pad
  write_headers with_crlf headers = do
    lines ← write_entries headers 0
    size ← pad with_crlf lines
    lift (assert (leb size v2_max_hblock))
    pure size

  -- The fuel counts the reads of a body from its file.
  unfoldable pub write_body : ⦃st : Storage⦄ → ℕ → Bool → BodyImage → Exec W BarcError ℕ
  unfolding pad
  write_body fuel with_crlf image = convert body (write_to wr fuel image) >>= pad with_crlf

abbrev pub is_plain : Compression → Bool
is_plain plain = true
is_plain gzip = false
is_plain brotli = false

-- What `BarcWriter::write` does after `write_record`: the head of the record goes over the one
-- that was reserved at `start`.
unfoldable pub complete_head : ℕ → RecordHead → Exec File BarcError ℕ
complete_head start head = do
  end ← convert io stream_position
  lift (assert (leb (start + v2_head_size) end))
  let len = end - start - v2_head_size
  lift (assert (if is_plain head.compress then head.len == len else true))
  _ ← convert io (seek_start start)
  write_record_head file_write (record head { len = len })
  _ ← convert io seek_end
  convert io file_flush
  pure start

module _ ⦃st : Storage⦄ ⦃cd : Codecs⦄ where
  -- The encoder is finished if the blocks were written, and dropped if not.
  abbrev pub finished : Outcome BarcError RecordHead → Encoder → Outcome BarcError RecordHead × File
  finished (ok head) enc = let (r, file) = finish_encoder enc in (map_ok (λ _. head) r, file)
  finished (err e) enc = (err e, drop_encoder enc)
  finished panic enc = (panic, drop_encoder enc)
  finished hang enc = (hang, drop_encoder enc)

module _ ⦃st : Storage⦄ ⦃ht : Http⦄ where
  open ht use {entries}

  -- The blocks of `write_record`, in their order, and the head with their lengths.
  unfoldable pub write_blocks :
      {W : Type 0} → Write W → ℕ → Compression → Record → Exec W BarcError RecordHead
  write_blocks wr fuel mode rec = do
    let with_crlf = is_plain mode
    meta ← write_headers wr with_crlf (entries rec.meta)
    req_h ← write_headers wr with_crlf (entries rec.req_headers)
    req_b ← write_body wr fuel with_crlf rec.req_body
    res_h ← write_headers wr with_crlf (entries rec.res_headers)
    let len = u64 (meta + req_h + res_h + req_b)
    lift (assert (leb (u64 (len + rec.res_body.len + 2)) v2_max_record))
    res_b ← write_body wr fuel with_crlf rec.res_body
    pure (record {
      len = u64 (len + res_b);
      rec_type = rec.rec_type;
      compress = mode;
      meta = meta;
      req_h = req_h;
      req_b = req_b;
      res_h = res_h;
    })

  module _ ⦃cd : Codecs⦄ where
    unfoldable pub write_record : ℕ → Strategy → Record → Exec File BarcError RecordHead
    write_record fuel strategy rec file =
        let encoder = wrap_encoder strategy rec file in
        let (r, enc) = write_blocks encoder_write fuel (mode encoder) rec encoder in finished r enc

    -- `BarcWriter::write`.
    unfoldable pub write : ℕ → Strategy → Record → Exec File BarcError ℕ
    write fuel strategy rec = do
      start ← convert io seek_end
      write_record_head file_write v2_reserve_head
      convert io file_flush
      head ← write_record fuel strategy rec
      complete_head start head
