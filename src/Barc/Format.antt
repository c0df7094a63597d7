-- ===== src/Barc/Format.antt =====
-- The text of a record head in barc/src/lib.rs: its digits, its line and its parser.
pub mod Digits
pub mod RoundTrip
use body_image.Common.{
  ℕ, zero, suc, ◌+◌, ◌-◌, ◌*◌, ◌/◌, ◌%◌, ◌==◌, ltb, leb, if◌then◌else◌, Bool, true, false, ◌&&◌,
  List, [], ◌∷◌, ◌++◌, take, drop, Option, none, some, u64, Outcome, ok, err, ◌>>=◌,
}
use body_image.Io.{Bytes}
use body_image.Barc.Errors.{BarcError, read_invalid_rec_head, read_invalid_rec_head_hex}
use body_image.Barc.Types.{RecordHead, type_flag, type_from_byte, compress_flag, compress_from_byte}

-- The character of a digit below 16, in lower case.
unfoldable pub hex_digit : ℕ → ℕ
hex_digit d = if ltb d 10 then b'0' + d else b'a' + (d - 10)

-- The digits in front of the padding: as many as `n` has, of 16 at most.
unfoldable pub hex_more : ℕ → ℕ → Bytes
hex_more zero n = []
hex_more (suc k) n = elim (n == 0) [
  | true ↦ []
  | false ↦ hex_more k (n / 16) ++ (hex_digit (n % 16) ∷ [])
]

-- `format!("{:0wx}", n)` of a `u64`: at least `w` digits.
unfoldable pub format_hex : ℕ → ℕ → Bytes
format_hex zero n = hex_more 16 n
format_hex (suc w) n = format_hex w (n / 16) ++ (hex_digit (n % 16) ∷ [])

-- The line that `write_record_head` formats.
unfoldable pub format_head : RecordHead → Bytes
format_head h =
    b'B'
    ∷ b'A'
    ∷ b'R'
    ∷ b'C'
    ∷ b'2'
    ∷ b' '
    ∷ (format_hex 12 h.len
        ++ (b' '
            ∷ type_flag h.rec_type
            ∷ compress_flag h.compress
            ∷ b' '
            ∷ (format_hex 5 h.meta
                ++ (b' '
                    ∷ (format_hex 5 h.req_h
                        ++ (b' '
                            ∷ (format_hex 10 h.req_b
                                ++ (b' '
                                    ∷ (format_hex 5 h.res_h ++ (13 ∷ 10 ∷ 13 ∷ 10 ∷ []))))))))))

-- The value of a digit in lower case.
unfoldable pub hex_value : ℕ → Option ℕ
hex_value d =
    if leb b'0' d && leb d b'9'
    then some (d - b'0')
    else if leb b'a' d && leb d b'f'
    then some (10 + (d - b'a'))
    else none

-- `parse_hex` into a type of 64 bits, from the value `v` on.
unfoldable pub parse_hex_from : ℕ → Bytes → Outcome BarcError ℕ
unfolding hex_value
parse_hex_from v [] = ok v
parse_hex_from v (d ∷ buf) = elim (hex_value d) [
  | some x ↦ parse_hex_from (u64 (u64 (v * 16) + x)) buf
  | none ↦ err (read_invalid_rec_head_hex d)
]

unfoldable pub parse_hex : Bytes → Outcome BarcError ℕ
unfolding parse_hex_from
parse_hex = parse_hex_from 0

-- `buf[i..j]` and `buf[i]`, inside the buffer.
abbrev pub slice : ℕ → ℕ → Bytes → Bytes
slice i j buf = take (j - i) (drop i buf)

abbrev pub first : Bytes → ℕ
first [] = 0
first (b ∷ _) = b

abbrev pub same_bytes : Bytes → Bytes → Bool
same_bytes [] [] = true
same_bytes (a ∷ as') (b ∷ bs) = a == b && same_bytes as' bs
same_bytes _ _ = false

abbrev pub magic : Bytes
magic = b'B' ∷ b'A' ∷ b'R' ∷ b'C' ∷ b'2' ∷ b' ' ∷ []

-- `read_record_head` on a buffer of 54 bytes.
unfoldable pub parse_head : Bytes → Outcome BarcError RecordHead
parse_head buf =
    if same_bytes (slice 0 6 buf) magic
    then (do
      len ← parse_hex (slice 6 18 buf)
      rec_type ← type_from_byte (first (drop 19 buf))
      compress ← compress_from_byte (first (drop 20 buf))
      meta ← parse_hex (slice 22 27 buf)
      req_h ← parse_hex (slice 28 33 buf)
      req_b ← parse_hex (slice 34 44 buf)
      res_h ← parse_hex (slice 45 50 buf)
      ok (record {
        len = len;
        rec_type = rec_type;
        compress = compress;
        meta = meta;
        req_h = req_h;
        req_b = req_b;
        res_h = res_h;
      }))
    else err read_invalid_rec_head
