-- ===== src/Futio/Decode/Found.antt =====
-- The encodings that are found in headers.
use body_image.Common.{
  ◌≡◌, refl, if◌then◌else◌, Bool, false, List, [], ◌∷◌, ◌++◌, take, ascii, Option, none, some,
  append_assoc, append-nil, Bool-cases, inl, inr,
}
use body_image.Http.{Http}
use body_image.Image.{Encoding, chunked, deflate, gzip, brotli, compress}
use body_image.Barc.Format.{same_bytes}
use body_image.Futio.Decode.{
  HyEncoding, hy_chunked, hy_brotli, hy_gzip, hy_deflate, hy_compress, hy_identity, hy_trailers,
  encoding_ext, Hyperx, scan, scan_rev, parse_encodings, has_chunked, find_encodings,
}

-- The encoding that a header value stands for, if it is a compression.
abbrev pub compression : HyEncoding → List Encoding
compression hy_deflate = deflate ∷ []
compression hy_gzip = gzip ∷ []
compression (encoding_ext s) = if same_bytes s (ascii "x-gzip") then gzip ∷ [] else []
compression hy_brotli = brotli ∷ []
compression hy_compress = compress ∷ []
compression _ = []

-- The compressions of a header, the last that was applied first.
abbrev pub compressions : List HyEncoding → List Encoding
compressions [] = []
compressions (av ∷ encs) = compressions encs ++ compression av

abbrev pub of_header : Option (List HyEncoding) → List Encoding
of_header none = []
of_header (some encs) = compressions encs

abbrev pub chunked_in : Option (List HyEncoding) → Bool
chunked_in none = false
chunked_in (some encs) = has_chunked encs

scan_lem :
    (av : HyEncoding) (encs : List HyEncoding) (res : List Encoding)
    → scan av (has_chunked encs, res ++ compressions encs)
      ≡ (has_chunked (av ∷ encs), res ++ compressions (av ∷ encs))
scan_lem hy_chunked encs res = rw (append-nil (compressions encs)) refl
scan_lem hy_brotli encs res = rw (append_assoc res (compressions encs) (brotli ∷ [])) refl
scan_lem hy_gzip encs res = rw (append_assoc res (compressions encs) (gzip ∷ [])) refl
scan_lem hy_deflate encs res = rw (append_assoc res (compressions encs) (deflate ∷ [])) refl
scan_lem hy_compress encs res = rw (append_assoc res (compressions encs) (compress ∷ [])) refl
scan_lem hy_identity encs res = rw (append-nil (compressions encs)) refl
scan_lem hy_trailers encs res = rw (append-nil (compressions encs)) refl
scan_lem (encoding_ext s) encs res = elim (Bool-cases (same_bytes s (ascii "x-gzip"))) [
  | inl is ↦ rw (is, append_assoc res (compressions encs) (gzip ∷ [])) refl
  | inr other ↦ rw (other, append-nil (compressions encs)) refl
]

scan_rev_lem :
    (encs : List HyEncoding) (res : List Encoding)
    → scan_rev encs (false, res) ≡ (has_chunked encs, res ++ compressions encs)
unfolding scan_rev
scan_rev_lem [] res = rw append-nil refl
scan_rev_lem (av ∷ encs) res = rw (scan_rev_lem encs res) (scan_lem av encs res)

parse_lem :
    (o : Option (List HyEncoding)) (res : List Encoding)
    → parse_encodings o res ≡ (chunked_in o, res ++ of_header o)
parse_lem none res = rw append-nil refl
parse_lem (some encs) res = scan_rev_lem encs res

module _ ⦃ht : Http⦄ (hx : Hyperx) where
  open hx use {parse_encoding}

  abbrev pub transfer : ht.HeaderMap → Option (List HyEncoding)
  transfer headers = parse_encoding (ascii "transfer-encoding") headers

  abbrev pub content : ht.HeaderMap → Option (List HyEncoding)
  content headers = parse_encoding (ascii "content-encoding") headers

  -- `find_encodings` gives `Chunked` first, exactly when the transfer encodings have it, and then
  -- at most one compression: the last that the transfer encodings name, or else the last that the
  -- content encodings name. `chunked` as a content encoding, identity and unknown encodings are
  -- not taken, and `x-gzip` is gzip.
  pub find_encodings_lem :
      (headers : ht.HeaderMap)
      → find_encodings hx headers
        ≡ (if chunked_in (transfer headers) then chunked ∷ [] else [])
          ++ take 1 (of_header (transfer headers) ++ of_header (content headers))
  unfolding find_encodings
  find_encodings_lem headers =
      rw
        (
          parse_lem (transfer headers) [],
          parse_lem (content headers) (of_header (transfer headers)),
        )
        (elim (Bool-cases (chunked_in (transfer headers))) [
          | inl found ↦ rw found refl
          | inr other ↦ rw other refl
        ])
