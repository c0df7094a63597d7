-- ===== src/Barc/Convert.antt =====
-- The conversions between `Dialog` and `Record` of barc/src/lib.rs.
pub mod Laws
pub mod Listed
pub mod Converts
use body_image.Common.{
  ℕ, ◌+◌, ◌/◌, ◌%◌, ◌==◌, ltb, leb, if◌then◌else◌, List, [], ◌∷◌, ◌++◌, Option, none, some, length,
  take, ascii, Outcome, ok, err, panic, hang, ◌>>=◌, map_ok, map_err,
}
use body_image.Io.{Bytes}
use body_image.Http.{Http, Flaw}
use body_image.Storage.{Storage}
use body_image.Image.{Encoding, encoding_text, chunked, deflate, gzip, brotli, Dialog}
use body_image.Barc.Errors.{
  BarcError, invalid_header, DialogConvertError, no_meta_url, no_meta_method, no_meta_res_version,
  no_meta_res_status, invalid_url, invalid_method, invalid_status_code, invalid_version,
  invalid_res_decoded, malformed_meta_res_status,
}
use body_image.Barc.Types.{dialog}
use body_image.Barc.Recorded.{
  Record, hname_meta_url, hname_meta_method, hname_meta_res_version, hname_meta_res_status,
  hname_meta_res_decoded,
}
use body_image.Barc.Format.{same_bytes, hex_digit}
use body_image.Barc.Compress.{trim}

-- The loop that joins the texts of the encodings; `joined` is what there is so far.
abbrev pub push_comma : Bytes → Bytes
push_comma [] = []
push_comma (c ∷ joined) = (c ∷ joined) ++ ascii ", "

unfoldable pub join_encodings : Bytes → List Encoding → Bytes
join_encodings joined [] = joined
join_encodings joined (e ∷ es) = join_encodings (push_comma joined ++ encoding_text e) es

-- `str::split` at one character.
abbrev pub before_first : ℕ → List Bytes → List Bytes
before_first c [] = (c ∷ []) ∷ []
before_first c (part ∷ parts) = (c ∷ part) ∷ parts

unfoldable pub split_on : ℕ → Bytes → List Bytes
split_on c [] = [] ∷ []
split_on c (x ∷ text) =
    let rest = split_on c text in if x == c then [] ∷ rest else before_first x rest

unfoldable pub encoding_from : Bytes → Outcome DialogConvertError Encoding
encoding_from enc =
    if same_bytes enc (ascii "chunked")
    then ok chunked
    else if same_bytes enc (ascii "deflate")
    then ok deflate
    else if same_bytes enc (ascii "gzip")
    then ok gzip
    else if same_bytes enc (ascii "br")
    then ok brotli
    else err (invalid_res_decoded enc)

-- The loop over the parts of the list.
unfoldable pub encodings_from : List Bytes → Outcome DialogConvertError (List Encoding)
unfolding trim encoding_from
encodings_from [] = ok []
encodings_from (enc ∷ parts) = do
  e ← encoding_from (trim enc)
  map_ok (λ es. e ∷ es) (encodings_from parts)

-- `{:x?}` of bytes.
abbrev hex_byte : ℕ → Bytes
hex_byte b = if ltb b 16 then hex_digit b ∷ [] else hex_digit (b / 16) ∷ hex_digit (b % 16) ∷ []

abbrev hex_rest : Bytes → Bytes
hex_rest [] = ascii "]"
hex_rest (b ∷ bs) = ascii ", " ++ (hex_byte b ++ hex_rest bs)

abbrev pub debug_hex : Bytes → Bytes
debug_hex [] = ascii "[]"
debug_hex (b ∷ bs) = ascii "[" ++ (hex_byte b ++ hex_rest bs)

module _ ⦃ht : Http⦄ where
  open ht use {
    HeaderMap, empty_map, append, get, to_str, parse_value, Uri, Method, StatusCode, Version,
    uri_text, uri_try_from, method_text, method_from_bytes, status_text, status_from_bytes, http_09,
    http_10, http_11, http_2, version_debug,
  }

  abbrev pub append_meta : Bytes → Bytes → HeaderMap → Outcome BarcError HeaderMap
  append_meta name text meta =
      map_ok (λ v. append name v meta) (map_err (λ e. invalid_header e) (parse_value text))

  abbrev pub append_decoded : List Encoding → HeaderMap → Outcome BarcError HeaderMap
  append_decoded [] meta = ok meta
  append_decoded (e ∷ es) meta =
      append_meta hname_meta_res_decoded (join_encodings [] (e ∷ es)) meta

  abbrev pub url_from : Option Bytes → Outcome DialogConvertError Uri
  url_from none = err no_meta_url
  url_from (some v) = map_err (λ e. invalid_url e) (uri_try_from v)

  abbrev pub method_from : Option Bytes → Outcome DialogConvertError Method
  method_from none = err no_meta_method
  method_from (some v) = map_err (λ e. invalid_method e) (method_from_bytes v)

  abbrev pub version_from : Option Bytes → Outcome DialogConvertError Version
  version_from none = err no_meta_res_version
  version_from (some v) =
      if same_bytes v (ascii "HTTP/0.9")
      then ok http_09
      else if same_bytes v (ascii "HTTP/1.0")
      then ok http_10
      else if same_bytes v (ascii "HTTP/1.1")
      then ok http_11
      else if same_bytes v (ascii "HTTP/2.0")
      then ok http_2
      else err (invalid_version v)

  -- Only the first three bytes of the status are read.
  abbrev pub status_from : Option Bytes → Outcome DialogConvertError StatusCode
  status_from none = err no_meta_res_status
  status_from (some v) =
      if leb 3 (length v)
      then map_err (λ e. invalid_status_code e) (status_from_bytes (take 3 v))
      else err malformed_meta_res_status

  abbrev pub decoded_text : Bytes → Option Bytes → Outcome DialogConvertError (List Encoding)
  decoded_text v (some dcds) = encodings_from (split_on b',' dcds)
  decoded_text v none = err (invalid_res_decoded (debug_hex v))

  abbrev pub decoded_from : Option Bytes → Outcome DialogConvertError (List Encoding)
  decoded_from none = ok []
  decoded_from (some v) = decoded_text v (to_str v)

  module _ ⦃st : Storage⦄ where
    unfoldable pub meta_of_dialog : Dialog → Outcome BarcError HeaderMap
    unfolding join_encodings
    meta_of_dialog d = do
      m1 ← append_meta hname_meta_url (uri_text d.pro.url) empty_map
      m2 ← append_meta hname_meta_method (method_text d.pro.method) m1
      m3 ← append_meta hname_meta_res_version (version_debug d.epi.version) m2
      m4 ← append_meta hname_meta_res_status (status_text d.epi.status) m3
      append_decoded d.epi.res_decoded m4

    -- `TryFrom<Dialog> for Record`.
    unfoldable pub record_from_dialog : Dialog → Outcome BarcError Record
    unfolding meta_of_dialog
    record_from_dialog d =
        map_ok
          (λ meta. record {
            rec_type = dialog;
            meta = meta;
            req_headers = d.pro.req_headers;
            req_body = d.pro.req_body;
            res_headers = d.epi.res_headers;
            res_body = d.epi.res_body;
          })
          (meta_of_dialog d)

    -- `TryFrom<Record> for Dialog`.
    unfoldable pub dialog_from_record : Record → Outcome DialogConvertError Dialog
    unfolding encodings_from split_on
    dialog_from_record rec = do
      url ← url_from (get hname_meta_url rec.meta)
      method ← method_from (get hname_meta_method rec.meta)
      version ← version_from (get hname_meta_res_version rec.meta)
      status ← status_from (get hname_meta_res_status rec.meta)
      decoded ← decoded_from (get hname_meta_res_decoded rec.meta)
      ok (record {
        pro = record {
          method = method;
          url = url;
          req_headers = rec.req_headers;
          req_body = rec.req_body;
        };
        epi = record {
          version = version;
          status = status;
          res_headers = rec.res_headers;
          res_body = rec.res_body;
          res_decoded = decoded;
        };
      })
