-- ===== src/Image/Recording.antt =====
-- `Encoding`, `Prolog`, `Epilog` and `Dialog` of body-image/src/lib.rs.
use body_image.Common.{List, ascii}
use body_image.Io.{Bytes}
use body_image.Http.{Http}
use body_image.Storage.{Storage}
use body_image.Image.State.{BodyImage}

pub data Encoding : Type 0 where
  chunked deflate gzip brotli compress identity : Encoding

-- `Display`.
abbrev pub encoding_text : Encoding → Bytes
encoding_text chunked = ascii "chunked"
encoding_text deflate = ascii "deflate"
encoding_text gzip = ascii "gzip"
encoding_text brotli = ascii "br"
encoding_text compress = ascii "compress"
encoding_text identity = ascii "identity"

module _ ⦃st : Storage⦄ ⦃ht : Http⦄ where
  open ht use {HeaderMap, Method, Uri, Version, StatusCode}

  pub record Prolog : Type 0 where
    pub method : Method
    pub url : Uri
    pub req_headers : HeaderMap
    pub req_body : BodyImage

  pub record Epilog : Type 0 where
    pub version : Version
    pub status : StatusCode
    pub res_headers : HeaderMap
    pub res_body : BodyImage
    pub res_decoded : List Encoding

  -- Also what `Dialog::explode` gives.
  pub record Dialog : Type 0 where
    pub pro : Prolog
    pub epi : Epilog

  abbrev pub set_res_decoded : List Encoding → Dialog → Dialog
  set_res_decoded decoded d = record d { epi = record d.epi { res_decoded = decoded } }

  abbrev pub set_res_body_decoded : BodyImage → List Encoding → Dialog → Dialog
  set_res_body_decoded b decoded d = record d {
    epi = record d.epi { res_body = b; res_decoded = decoded };
  }
