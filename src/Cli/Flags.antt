-- ===== src/Cli/Flags.antt =====
-- The flags of barc-cli/src/main.rs.
use body_image.Common.{
  ℕ, ◌+◌, ◌-◌, ◌*◌, ◌^◌, ◌==◌, ltb, leb, if◌then◌else◌, Bool, true, ◌||◌, ◌&&◌, [], ◌∷◌, Option,
  none, some, ascii, Outcome, ok, err, ◌>>=◌,
}
use body_image.Io.{Bytes, IoError}
use body_image.Barc.{BarcError}
use body_image.Barc.Compress.{Strategy, no_compress, gzip_default, brotli_default}

-- `cl_error` is a `quit!`, without its message; `parse_error` is that of a number.
pub data CliError : Type 0 where
  cl_error parse_error : CliError
  barc : BarcError → CliError
  io : IoError → CliError

-- `clap::ArgMatches` of a sub-command, and how many values its `file` has.
pub record ArgMatches : Type 0 where
  pub is_present : Bytes → Bool
  pub value_of : Bytes → Option Bytes
  pub files_len : ℕ

pub record Parts : Type 0 where
  pub meta : Bool
  pub req_head : Bool
  pub req_body : Bool
  pub res_head : Bool
  pub res_body : Bool

abbrev pub default_parts : Parts
default_parts = record {
  meta = true;
  req_head = true;
  req_body = true;
  res_head = true;
  res_body = true;
}

unfoldable pub part_flags : ArgMatches → Parts
part_flags m =
    let meta = m.is_present (ascii "meta") in
    let req_head = m.is_present (ascii "req_head") in
    let req_body = m.is_present (ascii "req_body") in
    let res_head = m.is_present (ascii "res_head") in
    let res_body = m.is_present (ascii "res_body") in
    if meta || (req_head || (req_body || (res_head || res_body)))
    then record {
      meta = meta;
      req_head = req_head;
      req_body = req_body;
      res_head = res_head;
      res_body = res_body;
    }
    else default_parts

-- With the feature `brotli`. The strategies check the identity encoding by default.
unfoldable pub compress_flags : ArgMatches → Strategy
compress_flags m =
    if m.is_present (ascii "gzip")
    then gzip_default
    else if m.is_present (ascii "brotli")
    then brotli_default
    else no_compress

pub data StartPos : Type 0 where
  offset_pos index_pos : ℕ → StartPos

-- The value of a digit, in either case.
abbrev pub digit_of : ℕ → Option ℕ
digit_of c =
    if leb b'0' c && leb c b'9'
    then some (c - b'0')
    else if leb b'a' c && leb c b'z'
    then some (c - b'a' + 10)
    else if leb b'A' c && leb c b'Z'
    then some (c - b'A' + 10)
    else none

abbrev pub push_digit : ℕ → ℕ → Option ℕ → Outcome CliError ℕ
push_digit radix n (some d) =
    if ltb d radix
    then (if ltb (n * radix + d) (2 ^ 64) then ok (n * radix + d) else err parse_error)
    else err parse_error
push_digit radix n none = err parse_error

unfoldable pub parse_digits : ℕ → ℕ → Bytes → Outcome CliError ℕ
parse_digits radix n [] = ok n
parse_digits radix n (c ∷ text) = push_digit radix n (digit_of c) >>= λ m. parse_digits radix m text

-- `str::parse` and `from_str_radix` of a 64-bit number; one plus may stand in front.
unfoldable pub parse_number : ℕ → Bytes → Outcome CliError ℕ
unfolding parse_digits
parse_number radix [] = err parse_error
parse_number radix (c ∷ []) = if c == b'+' then err parse_error else parse_digits radix 0 (c ∷ [])
parse_number radix (c ∷ d ∷ text) =
    if c == b'+' then parse_digits radix 0 (d ∷ text) else parse_digits radix 0 (c ∷ d ∷ text)

-- After `0x`, the rest is hexadecimal.
abbrev pub parse_offset : Bytes → Outcome CliError ℕ
parse_offset (x ∷ y ∷ text) =
    if x == b'0' && y == b'x' then parse_number 16 text else parse_number 10 (x ∷ y ∷ text)
parse_offset text = parse_number 10 text

-- The value of a flag, which only one input file may have.
abbrev pub single :
    {A : Type 0} → ArgMatches → Bytes → A → (Bytes → Outcome CliError A) → Outcome CliError A
single m flag otherwise parse = elim (m.value_of flag) [
  | none ↦ ok otherwise
  | some v ↦ if ltb 1 m.files_len then err cl_error else parse v
]

-- The start position and the count; without a count, the greatest `usize`.
unfoldable pub filter_flags : ArgMatches → Outcome CliError (StartPos × ℕ)
unfolding parse_number
filter_flags m = do
  start ← single m (ascii "index") (index_pos 0) (λ v. parse_number 10 v >>= λ n. ok (index_pos n))
  start' ← single m (ascii "offset") start (λ v. parse_offset v >>= λ n. ok (offset_pos n))
  count ← single m (ascii "count") (2 ^ 64 - 1) (parse_number 10)
  ok (start', count)
