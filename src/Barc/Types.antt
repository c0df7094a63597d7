-- ===== src/Barc/Types.antt =====
-- `RecordType`, `RecordHead` and the flags of barc/src/lib.rs and barc/src/compress.rs.
use body_image.Common.{ℕ, ◌==◌, if◌then◌else◌, Outcome, ok, err}
use body_image.Barc.Errors.{
  BarcError, unknown_record_type, unknown_compression, Compression, plain, gzip, brotli,
}

pub data RecordType : Type 0 where
  reserved dialog : RecordType

-- `RecordType::flag`.
unfoldable pub type_flag : RecordType → ℕ
type_flag reserved = b'R'
type_flag dialog = b'D'

-- `RecordType::from_byte`.
unfoldable pub type_from_byte : ℕ → Outcome BarcError RecordType
type_from_byte f =
    if f == b'R' then ok reserved else if f == b'D' then ok dialog else err (unknown_record_type f)

-- `Compression::flag`.
unfoldable pub compress_flag : Compression → ℕ
compress_flag plain = b'P'
compress_flag gzip = b'Z'
compress_flag brotli = b'B'

-- `Compression::from_byte`.
unfoldable pub compress_from_byte : ℕ → Outcome BarcError Compression
compress_from_byte f =
    if f == b'P'
    then ok plain
    else if f == b'Z'
    then ok gzip
    else if f == b'B'
    then ok brotli
    else err (unknown_compression f)

pub record RecordHead : Type 0 where
  pub len : ℕ
  pub rec_type : RecordType
  pub compress : Compression
  pub meta : ℕ
  pub req_h : ℕ
  pub req_b : ℕ
  pub res_h : ℕ

abbrev pub v2_head_size : ℕ
v2_head_size = 54

abbrev pub v2_max_record : ℕ
v2_max_record = 0xffff_ffff_ffff

abbrev pub v2_max_hblock : ℕ
v2_max_hblock = 0xf_ffff

abbrev pub v2_max_req_body : ℕ
v2_max_req_body = 0xff_ffff_ffff

abbrev pub v2_reserve_head : RecordHead
v2_reserve_head = record {
  len = 0;
  rec_type = reserved;
  compress = plain;
  meta = 0;
  req_h = 0;
  req_b = 0;
  res_h = 0;
}
