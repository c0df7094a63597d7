-- ===== src/Barc/Format/RoundTrip.antt =====
-- A head that is in range is written in 54 bytes and parsed back.
use body_image.Common.{
  ℕ, Bool, true, ◌&&◌, leb, le→leb, ◌≤◌, ◌≡◌, refl, ◌∙◌, ap, [], ◌∷◌, ◌++◌, length, length-append,
  take, drop, take_front, drop_past, ok, arith,
}
use body_image.Io.{Bytes}
use body_image.Barc.Errors.{Compression, plain, gzip, brotli}
use body_image.Barc.Types.{
  RecordType, reserved, dialog, RecordHead, type_flag, type_from_byte, compress_flag,
  compress_from_byte, v2_max_record, v2_max_hblock, v2_max_req_body, v2_head_size,
}
use body_image.Barc.Format.{format_hex, format_head, parse_hex, parse_head, magic, slice, first}
use body_image.Barc.Format.Digits.{length-format_hex, parse_hex-format_hex}

-- The ranges that `write_record_head` asserts.
pub record InRange (h : RecordHead) : Type 0 where
  pub len : h.len ≤ v2_max_record
  pub meta : h.meta ≤ v2_max_hblock
  pub req_h : h.req_h ≤ v2_max_hblock
  pub req_b : h.req_b ≤ v2_max_req_body
  pub res_h : h.res_h ≤ v2_max_hblock

abbrev pub in_range : RecordHead → Bool
in_range h =
    leb h.len v2_max_record
    && leb h.meta v2_max_hblock
    && leb h.req_h v2_max_hblock
    && leb h.req_b v2_max_req_body
    && leb h.res_h v2_max_hblock

pub in_range→InRange : (h : RecordHead) → in_range h ≡ true → InRange h
in_range→InRange h e = record {
  len = ground arith;
  meta = ground arith;
  req_h = ground arith;
  req_b = ground arith;
  res_h = ground arith;
}

pub InRange→in_range : (h : RecordHead) → InRange h → in_range h ≡ true
InRange→in_range h r =
    rw
      (
        le→leb h.len v2_max_record r.len,
        le→leb h.meta v2_max_hblock r.meta,
        le→leb h.req_h v2_max_hblock r.req_h,
        le→leb h.req_b v2_max_req_body r.req_b,
        le→leb h.res_h v2_max_hblock r.res_h,
      )
      refl

type_from_byte-flag : (t : RecordType) → type_from_byte (type_flag t) ≡ ok t
unfolding type_from_byte type_flag
type_from_byte-flag reserved = refl
type_from_byte-flag dialog = refl

compress_from_byte-flag : (c : Compression) → compress_from_byte (compress_flag c) ≡ ok c
unfolding compress_from_byte compress_flag
compress_from_byte-flag plain = refl
compress_from_byte-flag gzip = refl
compress_from_byte-flag brotli = refl

-- The line of a head around five columns of digits and two flags.
abbrev columns : Bytes → ℕ → ℕ → Bytes → Bytes → Bytes → Bytes → Bytes
columns a t x b c d e =
    b'B'
    ∷ b'A'
    ∷ b'R'
    ∷ b'C'
    ∷ b'2'
    ∷ b' '
    ∷ (a
        ++ (b' '
            ∷ t
            ∷ x
            ∷ b' '
            ∷ (b ++ (b' ' ∷ (c ++ (b' ' ∷ (d ++ (b' ' ∷ (e ++ (13 ∷ 10 ∷ 13 ∷ 10 ∷ []))))))))))

module _ (a : Bytes) (t x : ℕ) (b c d e : Bytes) (la : length a ≡ 12) (lb : length b ≡ 5)
    (lc : length c ≡ 5) (ld : length d ≡ 10) (le : length e ≡ 5) where
  abbrev end : Bytes
  end = 13 ∷ 10 ∷ 13 ∷ 10 ∷ []

  abbrev from_e : Bytes
  from_e = b' ' ∷ (e ++ end)

  abbrev from_d : Bytes
  from_d = b' ' ∷ (d ++ from_e)

  abbrev from_c : Bytes
  from_c = b' ' ∷ (c ++ from_d)

  abbrev from_t : Bytes
  from_t = b' ' ∷ t ∷ x ∷ b' ' ∷ (b ++ from_c)

  slice_len : slice 6 18 (columns a t x b c d e) ≡ a
  slice_len = take_front 12 a from_t la

  byte_type : first (drop 19 (columns a t x b c d e)) ≡ t
  byte_type = ap first (drop_past 12 1 a from_t la)

  byte_compress : first (drop 20 (columns a t x b c d e)) ≡ x
  byte_compress = ap first (drop_past 12 2 a from_t la)

  slice_meta : slice 22 27 (columns a t x b c d e) ≡ b
  slice_meta = ap (take 5) (drop_past 12 4 a from_t la) ∙ take_front 5 b from_c lb

  slice_req_h : slice 28 33 (columns a t x b c d e) ≡ c
  slice_req_h =
      ap (take 5) (drop_past 12 10 a from_t la ∙ drop_past 5 1 b from_c lb)
      ∙ take_front 5 c from_d lc

  slice_req_b : slice 34 44 (columns a t x b c d e) ≡ d
  slice_req_b =
      ap (take 10)
        (drop_past 12 16 a from_t la ∙ drop_past 5 7 b from_c lb ∙ drop_past 5 1 c from_d lc)
      ∙ take_front 10 d from_e ld

  slice_res_h : slice 45 50 (columns a t x b c d e) ≡ e
  slice_res_h =
      ap (take 5) (
        drop_past 12 27 a from_t la
        ∙ drop_past 5 18 b from_c lb
        ∙ drop_past 5 12 c from_d lc
        ∙ drop_past 10 1 d from_e ld)
      ∙ take_front 5 e end le

  length-columns : length (columns a t x b c d e) ≡ 54
  length-columns = omega (
    arith,
    length-append a from_t,
    length-append b from_c,
    length-append c from_d,
    length-append d from_e,
    length-append e end,
  )

module _ (h : RecordHead) (r : InRange h) where
  len_digits : length (format_hex 12 h.len) ≡ 12
  len_digits = length-format_hex 12 h.len (omega (arith, r.len))

  meta_digits : length (format_hex 5 h.meta) ≡ 5
  meta_digits = length-format_hex 5 h.meta (omega (arith, r.meta))

  req_h_digits : length (format_hex 5 h.req_h) ≡ 5
  req_h_digits = length-format_hex 5 h.req_h (omega (arith, r.req_h))

  req_b_digits : length (format_hex 10 h.req_b) ≡ 10
  req_b_digits = length-format_hex 10 h.req_b (omega (arith, r.req_b))

  res_h_digits : length (format_hex 5 h.res_h) ≡ 5
  res_h_digits = length-format_hex 5 h.res_h (omega (arith, r.res_h))

-- The line of a head in range has the 54 bytes that `write_record_head` asserts at its end.
pub length-format_head : (h : RecordHead) → InRange h → length (format_head h) ≡ v2_head_size
unfolding format_head
length-format_head h r =
    length-columns (format_hex 12 h.len) (type_flag h.rec_type) (compress_flag h.compress)
      (format_hex 5 h.meta) (format_hex 5 h.req_h) (format_hex 10 h.req_b) (format_hex 5 h.res_h)
      (len_digits h r) (meta_digits h r) (req_h_digits h r) (req_b_digits h r) (res_h_digits h r)

parse_fields :
    (buf : Bytes) (h : RecordHead)
    → slice 0 6 buf ≡ magic
    → parse_hex (slice 6 18 buf) ≡ ok h.len
    → type_from_byte (first (drop 19 buf)) ≡ ok h.rec_type
    → compress_from_byte (first (drop 20 buf)) ≡ ok h.compress
    → parse_hex (slice 22 27 buf) ≡ ok h.meta
    → parse_hex (slice 28 33 buf) ≡ ok h.req_h
    → parse_hex (slice 34 44 buf) ≡ ok h.req_b
    → parse_hex (slice 45 50 buf) ≡ ok h.res_h
    → parse_head buf ≡ ok h
unfolding parse_head
parse_fields buf h m e₁ e₂ e₃ e₄ e₅ e₆ e₇ = rw (m, e₁, e₂, e₃, e₄, e₅, e₆, e₇) refl

-- Every head within the asserted ranges is parsed back from its line, field by field.
pub parse_head-format_head : (h : RecordHead) → InRange h → parse_head (format_head h) ≡ ok h
unfolding format_head
parse_head-format_head h r =
    let a : Bytes = format_hex 12 h.len in
    let b : Bytes = format_hex 5 h.meta in
    let c : Bytes = format_hex 5 h.req_h in
    let d : Bytes = format_hex 10 h.req_b in
    let e : Bytes = format_hex 5 h.res_h in
    let t : ℕ = type_flag h.rec_type in
    let x : ℕ = compress_flag h.compress in
    let la = len_digits h r in
    let lb = meta_digits h r in
    let lc = req_h_digits h r in
    let ld = req_b_digits h r in
    let le = res_h_digits h r in
    parse_fields (columns a t x b c d e) h refl
      (ap parse_hex (slice_len a t x b c d e la lb lc ld le)
        ∙ parse_hex-format_hex 12 h.len (omega (arith, r.len)) (omega (arith, r.len)))
      (ap type_from_byte (byte_type a t x b c d e la lb lc ld le) ∙ type_from_byte-flag h.rec_type)
      (ap compress_from_byte (byte_compress a t x b c d e la lb lc ld le)
        ∙ compress_from_byte-flag h.compress)
      (ap parse_hex (slice_meta a t x b c d e la lb lc ld le)
        ∙ parse_hex-format_hex 5 h.meta (omega (arith, r.meta)) (omega (arith, r.meta)))
      (ap parse_hex (slice_req_h a t x b c d e la lb lc ld le)
        ∙ parse_hex-format_hex 5 h.req_h (omega (arith, r.req_h)) (omega (arith, r.req_h)))
      (ap parse_hex (slice_req_b a t x b c d e la lb lc ld le)
        ∙ parse_hex-format_hex 10 h.req_b (omega (arith, r.req_b)) (omega (arith, r.req_b)))
      (ap parse_hex (slice_res_h a t x b c d e la lb lc ld le)
        ∙ parse_hex-format_hex 5 h.res_h (omega (arith, r.res_h)) (omega (arith, r.res_h)))
