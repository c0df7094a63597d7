-- ===== src/Io/Stream.antt =====
-- `std::io::Read` and `std::io::Write`, as records of the methods that the program calls.
use body_image.Common.{ℕ, List, Done, Outcome}

-- A byte buffer: numbers below 256.
abbrev pub Bytes : Type 0
Bytes = List ℕ

-- `io::ErrorKind`: the kinds that the program or the library tells apart, and the rest by a code.
pub data IoError : Type 0 where
  interrupted unexpected_eof invalid_input : IoError
  other : ℕ → IoError

-- `read n r` is one call of `Read::read` with a buffer of `n` bytes: what was put in the buffer.
pub record Read (R : Type 0) : Type 0 where
  pub read : ℕ → R → Outcome IoError Bytes × R

-- `write_all b w` is one call of `Write::write_all`.
pub record Write (W : Type 0) : Type 0 where
  pub write_all : Bytes → W → Outcome IoError (Done) × W
  pub flush : W → Outcome IoError (Done) × W
