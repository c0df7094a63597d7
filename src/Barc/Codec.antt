-- ===== src/Barc/Codec.antt =====
-- `EncodeWrapper`, `DecodeWrapper` and `wrap_encoder` of barc/src/compress.rs.
use body_image.Common.{ℕ, if◌then◌else◌, Option, Done, Outcome, ok, err, panic, hang}
use body_image.Common.Exec.{Exec, convert}
use body_image.Io.{Bytes, IoError, Read, Write, File, file_write_all, file_flush}
use body_image.Storage.{Storage}
use body_image.Barc.Errors.{BarcError, io, decoder_unsupported, Compression, plain, gzip, brotli}
use body_image.Barc.Recorded.{Http, Record}
use body_image.Barc.Compress.{
  Strategy, no_compress, gzip_compress, brotli_compress, is_compressible,
}

-- The crates `flate2` and `brotli`: a parameter. An encoder holds the file that it writes to, and
-- gives it back when it is finished or dropped.
pub record Codecs ⦃st : Storage⦄ : Type 1 where
  pub GzEncoder : Type 0
  pub gz_new : File → ℕ → GzEncoder
  pub gz_write : Write GzEncoder
  pub gz_finish : GzEncoder → Outcome IoError Done × File
  pub gz_drop : GzEncoder → File
  pub CompressorWriter : Type 0
  pub brotli_new : File → (buffer level window : ℕ) → CompressorWriter
  pub brotli_write : Write CompressorWriter
  pub brotli_drop : CompressorWriter → File
  pub GzDecoder : Type 0
  pub gz_decoder : st.ReadSlice → GzDecoder
  pub gz_read : Read GzDecoder
  pub Decompressor : Type 0
  pub decompressor : st.ReadSlice → ℕ → Decompressor
  pub brotli_read : Read Decompressor
  -- The parser of the crate `mime`.
  pub parse_mime : Bytes → Option (Bytes × Bytes)

module _ ⦃st : Storage⦄ ⦃cd : Codecs⦄ where
  open cd use {
    GzEncoder, gz_new, gz_write, gz_finish, gz_drop, CompressorWriter, brotli_new, brotli_write,
    brotli_drop, GzDecoder, gz_decoder, gz_read, Decompressor, decompressor, brotli_read,
    parse_mime,
  }

  pub data Encoder : Type 0 where
    enc_plain : File → Encoder
    enc_gzip : GzEncoder → Encoder
    enc_brotli : CompressorWriter → Encoder

  abbrev pub mode : Encoder → Compression
  mode (enc_plain _) = plain
  mode (enc_gzip _) = gzip
  mode (enc_brotli _) = brotli

  -- The result of a call on the inner writer, and the wrapper around what it left.
  abbrev inside :
      {W : Type 0} → (W → Encoder) → Outcome IoError Done × W → Outcome IoError Done × Encoder
  inside f (r, w) = (r, f w)

  abbrev pub encode : Bytes → Exec Encoder IoError Done
  encode buf (enc_plain f) = inside enc_plain (file_write_all buf f)
  encode buf (enc_gzip g) = inside enc_gzip (gz_write.write_all buf g)
  encode buf (enc_brotli b) = inside enc_brotli (brotli_write.write_all buf b)

  abbrev pub flush_encoder : Exec Encoder IoError Done
  flush_encoder (enc_plain f) = inside enc_plain (file_flush f)
  flush_encoder (enc_gzip g) = inside enc_gzip (gz_write.flush g)
  flush_encoder (enc_brotli b) = inside enc_brotli (brotli_write.flush b)

  abbrev pub encoder_write : Write Encoder
  encoder_write = record { write_all = encode; flush = flush_encoder }

  -- The file that is left when the wrapper is dropped.
  abbrev pub drop_encoder : Encoder → File
  drop_encoder (enc_plain f) = f
  drop_encoder (enc_gzip g) = gz_drop g
  drop_encoder (enc_brotli b) = brotli_drop b

  -- `gze.finish()?.flush()?`.
  abbrev flush_after : Outcome IoError Done × File → Outcome BarcError Done × File
  flush_after (ok _, f) = convert io file_flush f
  flush_after (err e, f) = (err (io e), f)
  flush_after (panic, f) = (panic, f)
  flush_after (hang, f) = (hang, f)

  abbrev dropped : Outcome BarcError Done × CompressorWriter → Outcome BarcError Done × File
  dropped (r, b) = (r, brotli_drop b)

  -- `EncodeWrapper::finish`.
  abbrev pub finish_encoder : Encoder → Outcome BarcError Done × File
  finish_encoder (enc_plain f) = convert io file_flush f
  finish_encoder (enc_gzip g) = flush_after (gz_finish g)
  finish_encoder (enc_brotli b) = dropped (convert io brotli_write.flush b)

  abbrev pub wrap_encoder : ⦃ht : Http⦄ → Strategy → Record → File → Encoder
  wrap_encoder no_compress rec file = enc_plain file
  wrap_encoder (gzip_compress level s) rec file =
      if is_compressible parse_mime s rec then enc_gzip (gz_new file level) else enc_plain file
  wrap_encoder (brotli_compress level s) rec file =
      if is_compressible parse_mime s rec
      then enc_brotli (brotli_new file 4096 level 21)
      else enc_plain file

  pub data DecodeWrapper : Type 0 where
    dec_gzip : GzDecoder → DecodeWrapper
    dec_brotli : Decompressor → DecodeWrapper

  -- `DecodeWrapper::new`.
  abbrev pub new_decoder : Compression → st.ReadSlice → ℕ → Outcome BarcError DecodeWrapper
  new_decoder gzip r buf_size = ok (dec_gzip (gz_decoder r))
  new_decoder brotli r buf_size = ok (dec_brotli (decompressor r buf_size))
  new_decoder plain r buf_size = err (decoder_unsupported plain)

  abbrev around :
      {R : Type 0}
      → (R → DecodeWrapper)
      → Outcome IoError Bytes × R
      → Outcome IoError Bytes × DecodeWrapper
  around f (res, r) = (res, f r)

  abbrev decode : ℕ → DecodeWrapper → Outcome IoError Bytes × DecodeWrapper
  decode n (dec_gzip g) = around dec_gzip (gz_read.read n g)
  decode n (dec_brotli b) = around dec_brotli (brotli_read.read n b)

  abbrev pub decoder_read : Read DecodeWrapper
  decoder_read = record { read = decode }
