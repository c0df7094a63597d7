-- ===== src/Futio/Errors.antt =====
-- `FutioError` of body-image-futio/src/lib.rs.
use body_image.Common.{ℕ}
use body_image.Io.{IoError}
use body_image.Image.{BodyError, io, Encoding}

-- A duration is a number of nanoseconds; an error of another crate is a code.
pub data FutioError : Type 0 where
  body : BodyError → FutioError
  response_timeout body_timeout content_length_too_long : ℕ → FutioError
  http hyper : ℕ → FutioError
  unsupported_encoding : Encoding → FutioError
  op_canceled other_flaw : ℕ → FutioError
  future_proof : FutioError

-- `From<io::Error>`.
abbrev pub from_io : IoError → FutioError
from_io e = body (io e)
