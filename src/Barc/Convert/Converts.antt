-- ===== src/Barc/Convert/Converts.antt =====
-- A dialog that is made a record is read back from it.
use body_image.Common.{◌≡◌, ◌⊎◌, List, [], ◌∷◌, Outcome, ok, err}
use body_image.Io.{Bytes}
use body_image.Http.{Http}
use body_image.Storage.{Storage}
use body_image.Image.{Encoding, Dialog}
use body_image.Barc.Errors.{DialogConvertError}
use body_image.Barc.Types.{dialog}
use body_image.Barc.Recorded.{
  Record, hname_meta_url, hname_meta_method, hname_meta_res_version, hname_meta_res_status,
  hname_meta_res_decoded,
}
use body_image.Barc.Convert.{join_encodings}
use body_image.Barc.Convert.Laws.{HttpLaws}

abbrev Same : List Encoding → Outcome DialogConvertError (List Encoding) → Type 0
Same es o = (o ≡ ok es) ⊎ ((e : DialogConvertError) × (o ≡ err e))

module _ ⦃ht : Http⦄ (laws : HttpLaws ht) where
  open ht use {
    HeaderMap, empty_map, append, get, parse_value, Version, StatusCode, version_debug, status_text,
    http_09, http_10, http_11, http_2,
  }

  -- A version that the crate has a constant for.
  abbrev pub Known : Version → Type 0
  Known v = (v ≡ http_09) ⊎ (v ≡ http_10) ⊎ (v ≡ http_11) ⊎ (v ≡ http_2)

  -- The four headers that every dialog has.
  abbrev four : Bytes → Bytes → Bytes → Bytes → HeaderMap
  four u m v s = append hname_meta_res_status s (
      append hname_meta_res_version v
        (append hname_meta_method m (append hname_meta_url u empty_map)))

  abbrev more_meta : List Encoding → HeaderMap → HeaderMap
  more_meta [] meta = meta
  more_meta (e ∷ es) meta = append hname_meta_res_decoded (join_encodings [] (e ∷ es)) meta

  module _ ⦃st : Storage⦄ where
    abbrev meta_for : Dialog → HeaderMap
    meta_for d = more_meta d.epi.res_decoded (
        four (ht.uri_text d.pro.url) (ht.method_text d.pro.method) (version_debug d.epi.version)
          (status_text d.epi.status))

    abbrev record_for : Dialog → Record
    record_for d = record {
      rec_type = dialog;
      meta = meta_for d;
      req_headers = d.pro.req_headers;
      req_body = d.pro.req_body;
      res_headers = d.epi.res_headers;
      res_body = d.epi.res_body;
    }
