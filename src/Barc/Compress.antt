-- ===== src/Barc/Compress.antt =====
-- The strategies of barc/src/compress.rs: whether a record is worth compressing.
pub mod Enough
use body_image.Common.{
  ℕ, zero, suc, ◌+◌, ◌-◌, ◌*◌, ◌/◌, ◌%◌, ◌^◌, ◌==◌, ltb, leb, if◌then◌else◌, Bool, true, false, not,
  ◌&&◌, ◌||◌, u64, List, [], ◌∷◌, length, drop, Option, none, some, ascii,
}
use body_image.Io.{Bytes}
use body_image.Storage.{Storage}
use body_image.Image.{BodyImage}
use body_image.Barc.Format.{same_bytes}
use body_image.Barc.Recorded.{Http, Record, hname_meta_res_decoded}

-- `n as f64` for a `u64`: the nearest number of 53 binary digits, times a power of two; `k` is the
-- greatest exponent still to be tried, and a tie goes to the even one.
abbrev round_even : ℕ → ℕ → ℕ
round_even p n =
    let q = n / p in
    let r = n % p in if ltb p (2 * r) || (2 * r == p && q % 2 == 1) then (q + 1) * p else q * p

unfoldable pub to_f64 : ℕ → ℕ → ℕ → ℕ
to_f64 zero p n = round_even p n
to_f64 (suc k) p n = elim (ltb n (2 ^ 53 * p)) [
  | true ↦ round_even p n
  | false ↦ to_f64 k (p * 2) n
]

-- `(len as f64 * 0.5) as u64`, the coefficient of every strategy here.
unfoldable pub discount : ℕ → ℕ
discount len = to_f64 11 1 len / 2

-- `u64::saturating_add`.
abbrev pub saturating_add : ℕ → ℕ → ℕ
saturating_add a b = if ltb (a + b) (2 ^ 64) then a + b else 2 ^ 64 - 1

-- `is_identity`: the value ends with `identity`.
unfoldable pub is_identity : Option Bytes → Bool
is_identity none = false
is_identity (some hvb) =
    leb (length (ascii "identity")) (length hvb)
    && same_bytes (drop (length hvb - length (ascii "identity")) hvb) (ascii "identity")

abbrev pub one_of : List Bytes → Bytes → Bool
one_of [] st = false
one_of (x ∷ xs) st = same_bytes st x || one_of xs st

-- The table of `is_compressible_type_str`, on the type and the subtype of a parsed value, which
-- are in lower case and without a suffix. `mime::JAVASCRIPT` and the others are these texts.
unfoldable pub compressible_mime : Option (Bytes × Bytes) → Bool
compressible_mime none = false
compressible_mime (some (t, st)) =
    same_bytes t (ascii "text")
    || (same_bytes t (ascii "application")
        && one_of
            (ascii "html"
              ∷ ascii "javascript"
              ∷ ascii "json"
              ∷ ascii "xml"
              ∷ ascii "atom"
              ∷ ascii "rss"
              ∷ ascii "x-font-opentype"
              ∷ ascii "x-font-truetype"
              ∷ ascii "x-font-ttf"
              ∷ ascii "xhtml"
              ∷ [])
            st)
    || (same_bytes t (ascii "image") && same_bytes st (ascii "svg"))
    || (same_bytes t (ascii "font")
        && one_of (ascii "opentype" ∷ ascii "otf" ∷ ascii "ttf" ∷ []) st)

-- `len_of_headers`, over the entries of the map.
unfoldable pub len_of_headers : List (Bytes × Bytes) → ℕ
len_of_headers [] = 0
len_of_headers ((key, value) ∷ rest) = length key + length value + 4 + len_of_headers rest

-- What a strategy sets.
pub record Worth : Type 0 where
  pub min_len : ℕ
  pub check_identity : Bool

pub data Strategy : Type 0 where
  no_compress : Strategy
  gzip_compress brotli_compress : (compression_level : ℕ) → Worth → Strategy

abbrev pub gzip_default : Strategy
gzip_default = gzip_compress 6 (record { min_len = 4 * 1024; check_identity = true })

abbrev pub brotli_default : Strategy
brotli_default = brotli_compress 6 (record { min_len = 1024; check_identity = true })

-- The compressible bytes so far, and the minimum with the discounts so far.
pub record Weighed : Type 0 where
  pub clen : ℕ
  pub min_len : ℕ

-- A body of `len` bytes counts, or raises the minimum.
unfoldable pub weigh : Bool → ℕ → Weighed → Weighed
unfolding discount
weigh compressible len w =
    if ltb 0 len
    then (if compressible
        then record w { clen = u64 (w.clen + len) }
        else record w { min_len = saturating_add w.min_len (discount len) })
    else w

-- The header blocks are added, one after another, as long as the bytes do not suffice.
unfoldable pub suffices : List ℕ → Weighed → Bool
suffices [] w = leb w.min_len w.clen
suffices (h ∷ hs) w = leb w.min_len w.clen || suffices hs (record w { clen = u64 (w.clen + h) })

abbrev white : ℕ → Bool
white c = c == b' ' || c == 9

abbrev trim_start : Bytes → Bytes
trim_start [] = []
trim_start (c ∷ text) = elim (white c) [ true ↦ trim_start text | false ↦ c ∷ text ]

abbrev unless_white : ℕ → Bytes → Bytes
unless_white c [] = if white c then [] else c ∷ []
unless_white c (d ∷ rest) = c ∷ d ∷ rest

abbrev trim_end : Bytes → Bytes
trim_end [] = []
trim_end (c ∷ text) = unless_white c (trim_end text)

-- `str::trim`, on the characters that `to_str` lets through: blanks and tabs are its white space.
unfoldable pub trim : Bytes → Bytes
trim text = trim_end (trim_start text)

module _ ⦃st : Storage⦄ ⦃ht : Http⦄ (parse_mime : Bytes → Option (Bytes × Bytes)) where
  open ht use {HeaderMap, entries, get, to_str}

  abbrev typed : Option Bytes → Bool
  typed none = false
  typed (some ctype_str) = compressible_mime (parse_mime (trim ctype_str))

  -- `is_compressible_type`; `parse_mime` is the parser of the crate `mime`.
  unfoldable pub is_compressible_type : Option Bytes → Bool
  is_compressible_type none = false
  is_compressible_type (some ctype_v) = typed (to_str ctype_v)

  -- Whether the response body counts, and the request body.
  unfoldable pub res_counts : Worth → Record → Bool
  res_counts s rec =
      (not s.check_identity || is_identity (get hname_meta_res_decoded rec.meta))
      && is_compressible_type (get (ascii "content-type") rec.res_headers)

  unfoldable pub req_counts : Record → Bool
  req_counts rec = is_compressible_type (get (ascii "content-type") rec.req_headers)

  unfoldable pub is_compressible : Worth → Record → Bool
  is_compressible s rec =
      suffices
        (len_of_headers (entries rec.res_headers)
          ∷ len_of_headers (entries rec.req_headers)
          ∷ len_of_headers (entries rec.meta)
          ∷ [])
        (weigh (req_counts rec) rec.req_body.len
          (weigh (res_counts s rec) rec.res_body.len (record { clen = 0; min_len = s.min_len })))
