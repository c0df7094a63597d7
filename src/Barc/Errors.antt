-- ===== src/Barc/Errors.antt =====
-- `BarcError` and `DialogConvertError` of barc/src/lib.rs, and `Compression` of barc/src/compress.rs.
use body_image.Common.{ℕ}
use body_image.Io.{Bytes, IoError}
use body_image.Image.{BodyError}
pub use body_image.Http.{Flaw}

-- `Compression`: the mode of a record.
pub data Compression : Type 0 where
  plain gzip brotli : Compression

pub data DialogConvertError : Type 0 where
  no_meta_url no_meta_method no_meta_res_version no_meta_res_status : DialogConvertError
  invalid_url invalid_method invalid_status_code : Flaw → DialogConvertError
  invalid_version invalid_res_decoded : Bytes → DialogConvertError
  malformed_meta_res_status : DialogConvertError
  future_proof : DialogConvertError

pub data BarcError : Type 0 where
  body : BodyError → BarcError
  io : IoError → BarcError
  unknown_record_type unknown_compression : ℕ → BarcError
  decoder_unsupported : Compression → BarcError
  read_incomplete_rec_head : ℕ → BarcError
  read_invalid_rec_head : BarcError
  read_invalid_rec_head_hex : ℕ → BarcError
  invalid_header : Flaw → BarcError
  into_dialog : DialogConvertError → BarcError
  future_proof : BarcError
