-- ===== src/Barc/Recorded.antt =====
-- `Record` of barc/src/lib.rs.
use body_image.Common.{ascii}
use body_image.Io.{Bytes}
use body_image.Storage.{Storage}
use body_image.Image.{BodyImage}
pub use body_image.Http.{Http}
use body_image.Barc.Types.{RecordType}

-- The `MetaRecorded` that is written.
module _ ⦃st : Storage⦄ ⦃ht : Http⦄ where
  open ht use {HeaderMap}

  pub record Record : Type 0 where
    pub rec_type : RecordType
    pub meta : HeaderMap
    pub req_headers : HeaderMap
    pub req_body : BodyImage
    pub res_headers : HeaderMap
    pub res_body : BodyImage

-- The names of the meta headers.
abbrev pub hname_meta_url : Bytes
hname_meta_url = ascii "url"

abbrev pub hname_meta_method : Bytes
hname_meta_method = ascii "method"

abbrev pub hname_meta_res_version : Bytes
hname_meta_res_version = ascii "response-version"

abbrev pub hname_meta_res_status : Bytes
hname_meta_res_status = ascii "response-status"

abbrev pub hname_meta_res_decoded : Bytes
hname_meta_res_decoded = ascii "response-decoded"
