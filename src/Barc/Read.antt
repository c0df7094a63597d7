-- ===== src/Barc/Read.antt =====
-- `BarcReader` of barc/src/lib.rs: the blocks of a record, and the record from the file.
pub mod Blocks
pub mod Reserved
use body_image.Common.{
  ℕ, zero, suc, ◌+◌, ◌-◌, ◌^◌, ◌==◌, ltb, leb, min, if◌then◌else◌, Bool, true, false, not, ◌||◌,
  u64, List, [], ◌∷◌, ◌++◌, length, take, Option, none, some, Done, Outcome, ok, err, panic, hang,
  map_err, assert, ascii,
}
use body_image.Common.Exec.{Exec, ◌>>=◌, ◌>>◌, pure, lift, convert}
use body_image.Io.{Bytes, IoError, interrupted, Read, read_exact}
use body_image.Storage.{Storage}
use body_image.Image.{
  BodyImage, BodySink, BodyError, empty, from_slice, image_from_read_slice, with_fs, write_all,
  prepare,
}
use body_image.Image.Tune.{Tunables}
use body_image.Image.ReadFrom.{read_from}
use body_image.Barc.Errors.{BarcError, body, io, invalid_header, plain}
use body_image.Barc.Types.{RecordType, reserved, dialog, RecordHead, v2_head_size}
use body_image.Barc.Recorded.{Http, Record}
use body_image.Barc.Head.{read_record_head}
use body_image.Barc.Codec.{Codecs, DecodeWrapper, new_decoder, decoder_read}
use body_image.Barc.Write.{crlf, is_plain}

-- The subtraction of two `u64`.
abbrev pub wrapping_sub : ℕ → ℕ → ℕ
wrapping_sub a b = u64 (a + 2 ^ 64 - b)

module _ ⦃ht : Http⦄ where
  open ht use {HeaderMap, empty_map, append, header_name, header_value, httparse_headers}

  -- The loop of `parse_headers` over the parsed headers.
  unfoldable pub append_each : List (Bytes × Bytes) → HeaderMap → Outcome BarcError HeaderMap
  append_each [] hmap = ok hmap
  append_each ((n, v) ∷ heads) hmap = elim (map_err invalid_header (header_name n)) [
    | ok name ↦ elim (map_err invalid_header (header_value v)) [
      | ok value ↦ append_each heads (append name value hmap)
      | err e ↦ err e
      | panic ↦ panic
      | hang ↦ hang
    ]
    | err e ↦ err e
    | panic ↦ panic
    | hang ↦ hang
  ]

  -- What `parse_headers` makes of the answer of `httparse` on a buffer of `n` bytes.
  abbrev pub parsed :
      ℕ → Outcome Bytes (Option (ℕ × List (Bytes × Bytes))) → Outcome BarcError HeaderMap
  parsed n (ok (some (size, heads))) = if size == n then append_each heads empty_map else panic
  parsed n (ok none) = err (invalid_header (ascii "too many headers"))
  parsed n (err e) = err (invalid_header e)
  parsed n panic = panic
  parsed n hang = hang

  unfoldable pub parse_headers : Bytes → Outcome BarcError HeaderMap
  unfolding append_each
  parse_headers buf = parsed (length buf) (httparse_headers buf)

module _ {R : Type 0} (rd : Read R) where
  open rd use {read}

  -- The fuel of the functions below counts the calls of `read`, for each call of a reader afresh.
  unfoldable pub read_headers : ⦃ht : Http⦄ → ℕ → Bool → ℕ → Exec R BarcError ht.HeaderMap
  read_headers ⦃ht⦄ fuel with_crlf len = elim (len == 0) [
    | true ↦ pure ht.empty_map
    | false ↦ do
      lift (assert (ltb 2 len))
      buf ← convert io (read_exact rd fuel len [])
      lift (parse_headers (if with_crlf then buf else buf ++ crlf))
  ]

  unfoldable pub read_body_ram : ⦃st : Storage⦄ → ℕ → Bool → ℕ → Exec R BarcError BodyImage
  read_body_ram fuel with_crlf len = elim (len == 0) [
    | true ↦ pure empty
    | false ↦ do
      lift (assert (not with_crlf || ltb 2 len))
      buf ← convert io (read_exact rd fuel len [])
      lift (map_err body (from_slice (take (if with_crlf then len - 2 else len) buf)))
  ]

  module _ ⦃st : Storage⦄ (len : ℕ) where
    open st use {BytesMut, with_capacity, chunk_len, put, clear, buf_bytes}

    abbrev limit : BytesMut → BodySink → ℕ
    limit buf sink = min (chunk_len buf) (wrapping_sub len sink.len)

    -- What follows the write of a buffer to the sink.
    abbrev body_written :
        (BytesMut → BodySink → Exec R BarcError BodyImage)
        → BytesMut
        → Outcome IoError Done × BodySink
        → Exec R BarcError BodyImage
    body_written go buf (ok _, sink) r =
        if ltb sink.len len
        then go (clear buf) sink r
        else if sink.len == len
        then (map_err body (prepare sink), r)
        else (panic, r)
    body_written go buf (err e, sink) r = (err (io e), r)
    body_written go buf (panic, sink) r = (panic, r)
    body_written go buf (hang, sink) r = (hang, r)

    -- One round of the loop of `read_body_fs` after its call of `read`; `go` is the next round.
    abbrev body_next :
        (BytesMut → BodySink → Exec R BarcError BodyImage)
        → BytesMut
        → BodySink
        → Outcome IoError Bytes
        → Exec R BarcError BodyImage
    body_next go buf sink (ok []) r = (map_err body (prepare sink), r)
    body_next go buf sink (ok (b ∷ bs)) r =
        let buf' = put (b ∷ bs) buf in body_written go buf' (write_all (buf_bytes buf') sink) r
    body_next go buf sink (err interrupted) r = go buf sink r
    body_next go buf sink (err e) r = (err (io e), r)
    body_next go buf sink panic r = (panic, r)
    body_next go buf sink hang r = (hang, r)

    -- The loop of `read_body_fs`.
    unfoldable pub body_loop : ℕ → BytesMut → BodySink → Exec R BarcError BodyImage
    body_loop zero buf sink r = (hang, r)
    body_loop (suc fuel) buf sink r = elim (ltb 0 (limit buf sink)) [
      | true ↦
          (let (res, r') = read (limit buf sink) r in body_next (body_loop fuel) buf sink res r')
      | false ↦ (panic, r)
    ]

    abbrev pub read_body_fs : ℕ → Tunables → Exec R BarcError BodyImage
    read_body_fs fuel tune =
        if len == 0
        then pure empty
        else (lift (map_err body (with_fs tune.temp_dir)) >>= λ sink.
            body_loop fuel (with_capacity tune.buffer_size_fs) sink)

module _ ⦃st : Storage⦄ where
  open st use {ReadPos, pos_read, tell, pos_seek_start, pos_seek_current, subslice}

  unfoldable pub slice_body : ℕ → Exec ReadPos BarcError BodyImage
  slice_body len rp =
      let offset = tell rp in
      (lift (assert (ltb 2 len))
          >> (convert io (pos_seek_current len) >>= λ _. λ rp'.
              (ok (image_from_read_slice (subslice rp' offset (u64 (offset + len) - 2))), rp')))
        rp

  -- `BarcReader::offset` and `BarcReader::seek`.
  abbrev pub offset : ReadPos → ℕ
  offset = tell

  unfoldable pub seek : ℕ → Exec ReadPos BarcError Done
  seek p = convert io (pos_seek_start p) >>= λ _. pure tt

  module _ ⦃ht : Http⦄ (tune : Tunables) (fuel : ℕ) where
    open ht use {HeaderMap}

    -- `read_compressed`, on the decoder of the record.
    unfoldable pub read_decoded : ⦃cd : Codecs⦄ → RecordHead → Exec DecodeWrapper BarcError Record
    read_decoded rhead = do
      meta ← read_headers decoder_read fuel false rhead.meta
      req_headers ← read_headers decoder_read fuel false rhead.req_h
      req_body ←
          (if leb rhead.req_b tune.max_body_ram
            then read_body_ram decoder_read fuel false rhead.req_b
            else read_body_fs decoder_read rhead.req_b fuel tune)
      res_headers ← read_headers decoder_read fuel false rhead.res_h
      res_body ← (λ d. (map_err body (read_from decoder_read tune fuel 4096 d), d))
      pure (record {
        rec_type = rhead.rec_type;
        meta = meta;
        req_headers = req_headers;
        req_body = req_body;
        res_headers = res_headers;
        res_body = res_body;
      })

    -- A body of an uncompressed record: into RAM, or as a slice of the file.
    abbrev pub read_body : ℕ → Exec ReadPos BarcError BodyImage
    read_body len =
        if leb len tune.max_body_ram then read_body_ram pos_read fuel true len else slice_body len

    -- The rest of `BarcReader::read` for an uncompressed record; `start` is where its head began.
    unfoldable pub read_plain : ℕ → RecordHead → Exec ReadPos BarcError Record
    read_plain start rhead = do
      meta ← read_headers pos_read fuel true rhead.meta
      req_headers ← read_headers pos_read fuel true rhead.req_h
      req_body ← read_body rhead.req_b
      res_headers ← read_headers pos_read fuel true rhead.res_h
      at ← (λ rp. (ok (tell rp), rp))
      res_body ←
          read_body (wrapping_sub rhead.len (wrapping_sub (wrapping_sub at start) v2_head_size))
      pure (record {
        rec_type = rhead.rec_type;
        meta = meta;
        req_headers = req_headers;
        req_body = req_body;
        res_headers = res_headers;
        res_body = res_body;
      })

    -- The rest of `BarcReader::read` for a compressed record: it is decoded from a slice of the
    -- file, and the reader goes on behind the slice.
    abbrev pub read_compressed : ⦃cd : Codecs⦄ → RecordHead → Exec ReadPos BarcError Record
    read_compressed rhead rp =
        let from = tell rp in
        let end = u64 (from + rhead.len) in
        (lift (new_decoder rhead.compress (subslice rp from end) tune.buffer_size_ram) >>= λ d.
        lift ((read_decoded rhead d).0) >>= λ rec.
        convert io (pos_seek_start end) >>= λ _. pure rec)
          rp

    -- What `BarcReader::read` does with the head.
    abbrev pub read_next :
        ⦃cd : Codecs⦄ → ℕ → Option RecordHead → Exec ReadPos BarcError (Option Record)
    read_next start none = pure none
    read_next start (some rhead) = elim rhead.rec_type [
      | reserved ↦ convert io (pos_seek_start start) >>= λ _. pure none
      | dialog ↦
          (if is_plain rhead.compress then read_plain start rhead else read_compressed rhead)
          >>= λ rec. pure (some rec)
    ]

    -- `BarcReader::read`.
    unfoldable pub read : ⦃cd : Codecs⦄ → Exec ReadPos BarcError (Option Record)
    read rp = (read_record_head pos_read fuel >>= read_next (tell rp)) rp
