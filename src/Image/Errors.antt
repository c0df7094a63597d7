-- ===== src/Image/Errors.antt =====
-- `BodyError` of body-image/src/lib.rs.
use body_image.Common.{ℕ}
use body_image.Io.{IoError}

pub data BodyError : Type 0 where
  body_too_long : ℕ → BodyError
  io : IoError → BodyError
  future_proof : BodyError
