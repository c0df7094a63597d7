-- ===== src/Futio/Decode.antt =====
-- body-image-futio/src/decode.rs, and `InDialog::prepare` of body-image-futio/src/lib.rs.
pub mod Found
pub mod Decodes
use body_image.Common.{
  ℕ, ◌*◌, ◌^◌, ◌&&◌, leb, if◌then◌else◌, Bool, true, false, List, [], ◌∷◌, ◌++◌, take, ascii,
  Option, none, some, Outcome, ok, err, panic, hang, ◌>>=◌, map_ok, map_err, u64,
}
use body_image.Io.{Bytes, Read}
use body_image.Http.{Http, Flaw}
use body_image.Storage.{Storage}
use body_image.Image.{
  BodyError, BodySink, BodyImage, BodyReader, prepare, reader, Encoding, chunked, deflate, gzip,
  brotli, compress, identity, Prolog, Dialog, set_res_decoded, set_res_body_decoded,
}
use body_image.Image.Tune.{Tunables}
use body_image.Image.ReadFrom.{read_from}
use body_image.Barc.Format.{same_bytes}
use body_image.Futio.Errors.{FutioError, body, unsupported_encoding, other_flaw}

-- `hyperx::header::Encoding`; `trailers` and `other` texts are extensions.
pub data HyEncoding : Type 0 where
  hy_chunked hy_brotli hy_gzip hy_deflate hy_compress hy_identity hy_trailers : HyEncoding
  encoding_ext : Bytes → HyEncoding

-- The crate `hyperx`: what it parses from the values of the headers; none is a failure, which is
-- only logged, or a missing header.
pub record Hyperx ⦃ht : Http⦄ : Type 0 where
  -- `ContentEncoding::parse_header`, on all values under a name.
  pub parse_encoding : Bytes → ht.HeaderMap → Option (List HyEncoding)
  -- `decode::<TransferEncoding>`.
  pub transfer_encoding : ht.HeaderMap → Option (List HyEncoding)
  -- `try_decode::<ContentLength>`.
  pub content_length : ht.HeaderMap → Option (Outcome ℕ ℕ)

-- What the scan of one header does at one encoding, to whether `chunked` was found and to `res`.
abbrev pub scan : HyEncoding → Bool × List Encoding → Bool × List Encoding
scan hy_identity (found, res) = (found, res)
scan hy_chunked (found, res) = (true, res)
scan hy_deflate (found, res) = (found, res ++ (deflate ∷ []))
scan hy_gzip (found, res) = (found, res ++ (gzip ∷ []))
scan (encoding_ext s) (found, res) =
    if same_bytes s (ascii "x-gzip") then (found, res ++ (gzip ∷ [])) else (found, res)
scan hy_brotli (found, res) = (found, res ++ (brotli ∷ []))
scan hy_compress (found, res) = (found, res ++ (compress ∷ []))
scan hy_trailers (found, res) = (found, res)

-- The loop over the encodings from the last to the first.
unfoldable pub scan_rev : List HyEncoding → Bool × List Encoding → Bool × List Encoding
scan_rev [] s = s
scan_rev (av ∷ encs) s = scan av (scan_rev encs s)

abbrev pub parse_encodings : Option (List HyEncoding) → List Encoding → Bool × List Encoding
parse_encodings none res = (false, res)
parse_encodings (some encs) res = scan_rev encs (false, res)

-- `last` of a list, unless it is `Chunked`.
abbrev pub compression_of : List Encoding → Option Encoding
compression_of [] = none
compression_of (chunked ∷ []) = none
compression_of (e ∷ []) = some e
compression_of (_ ∷ e ∷ es) = compression_of (e ∷ es)

abbrev pub has_chunked : List HyEncoding → Bool
has_chunked [] = false
has_chunked (hy_chunked ∷ encs) = true
has_chunked (_ ∷ encs) = has_chunked encs

module _ ⦃ht : Http⦄ (hx : Hyperx) where
  open ht use {HeaderMap}
  open hx use {parse_encoding, transfer_encoding}

  -- `truncate(1)` is `take 1`, which leaves a list of at most one encoding as it is.
  unfoldable pub find_encodings : HeaderMap → List Encoding
  unfolding scan_rev
  find_encodings headers =
      let (found, res) = parse_encodings (parse_encoding (ascii "transfer-encoding") headers) [] in
      let (_, res') = parse_encodings (parse_encoding (ascii "content-encoding") headers) res in
      if found then chunked ∷ take 1 res' else take 1 res'

  unfoldable pub find_chunked : HeaderMap → Bool
  find_chunked headers = elim (transfer_encoding headers) [ none ↦ false | some v ↦ has_chunked v ]

-- The decoders of the crates `flate2` and `brotli` over the reader of a body.
pub record Decoders ⦃st : Storage⦄ : Type 1 where
  pub GzDecoder : Type 0
  pub gz_new : BodyReader → GzDecoder
  pub gz_read : Read GzDecoder
  pub DeflateDecoder : Type 0
  pub deflate_new : BodyReader → DeflateDecoder
  pub deflate_read : Read DeflateDecoder
  pub Decompressor : Type 0
  pub brotli_new : BodyReader → ℕ → Decompressor
  pub brotli_read : Read Decompressor

-- `body.len() * u64::from(…)`: an overflow panics in a build that checks for it, as debug builds do,
-- and wraps around in any other.
abbrev pub len_est : ⦃st : Storage⦄ → Bool → BodyImage → ℕ → Outcome FutioError ℕ
len_est checks b size_estimate =
    if checks && leb (2 ^ 64) (b.len * size_estimate)
    then panic
    else ok (u64 (b.len * size_estimate))

-- `checks` is whether the build checks for overflow.
module _ ⦃st : Storage⦄ (checks : Bool) (dec : Decoders) (tune : Tunables) (fuel : ℕ) where
  open dec use {gz_new, gz_read, deflate_new, deflate_read, brotli_new, brotli_read}

  -- The fuel is that of `read_from`.
  unfoldable pub decompress : BodyImage → Encoding → Outcome FutioError BodyImage
  decompress b gzip = do
    est ← len_est checks b tune.size_estimate_gzip
    map_err (λ e. body e) (read_from gz_read tune fuel est (gz_new (reader b)))
  decompress b deflate = do
    est ← len_est checks b tune.size_estimate_deflate
    map_err (λ e. body e) (read_from deflate_read tune fuel est (deflate_new (reader b)))
  decompress b brotli = do
    est ← len_est checks b tune.size_estimate_brotli
    map_err (λ e. body e)
        (read_from brotli_read tune fuel est (brotli_new (reader b) tune.buffer_size_ram))
  decompress b e = err (unsupported_encoding e)

  module _ ⦃ht : Http⦄ (hx : Hyperx) where
    -- With the body decoded, or when there is nothing to decode; the dialog as the call leaves it.
    abbrev pub decoded :
        List Encoding → Outcome FutioError BodyImage → Dialog → Outcome FutioError Bool × Dialog
    decoded encodings (ok b) d = (ok true, set_res_body_decoded b (encodings ++ (identity ∷ [])) d)
    decoded encodings (err e) d = (err e, d)
    decoded encodings panic d = (panic, d)
    decoded encodings hang d = (hang, d)

    abbrev pub decode_by :
        List Encoding → Option Encoding → Dialog → Outcome FutioError Bool × Dialog
    decode_by encodings (some comp) d = decoded encodings (decompress d.epi.res_body comp) d
    decode_by encodings none d = (ok false, set_res_decoded (encodings ++ (identity ∷ [])) d)

    unfoldable pub decode_res_body : Dialog → Outcome FutioError Bool × Dialog
    unfolding decompress find_encodings
    decode_res_body d =
        let encodings = find_encodings hx d.epi.res_headers in
        decode_by encodings (compression_of encodings) d

module _ ⦃st : Storage⦄ ⦃ht : Http⦄ (hx : Hyperx) where
  open ht use {HeaderMap, Version, StatusCode}

  pub record InDialog : Type 0 where
    pub prolog : Prolog
    pub version : Version
    pub status : StatusCode
    pub res_headers : HeaderMap
    pub res_body : BodySink

  abbrev pub dialog_with : InDialog → BodyImage → Dialog
  dialog_with i b = record {
    pro = i.prolog;
    epi = record {
      version = i.version;
      status = i.status;
      res_headers = i.res_headers;
      res_body = b;
      res_decoded = if find_chunked hx i.res_headers then chunked ∷ [] else [];
    };
  }

  unfoldable pub prepare_dialog : InDialog → Outcome FutioError Dialog
  unfolding find_chunked
  prepare_dialog i = map_ok (dialog_with i) (map_err (λ e. body e) (prepare i.res_body))
