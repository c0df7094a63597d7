-- ===== src/Http.antt =====
-- What the program takes from the crates `http`, `httparse` and `hyperx`: a parameter.
use body_image.Common.{ℕ, List, Option, Outcome}
use body_image.Io.{Bytes}

-- `Flaw`, an error of another crate: its text.
abbrev pub Flaw : Type 0
Flaw = Bytes

pub record Http : Type 1 where
  pub HeaderMap : Type 0
  pub empty_map : HeaderMap
  pub append : Bytes → Bytes → HeaderMap → HeaderMap
  -- `HeaderMap::iter`: the names and the values.
  pub entries : HeaderMap → List (Bytes × Bytes)
  pub get : Bytes → HeaderMap → Option Bytes
  -- `HeaderName::from_str` and `HeaderValue::from_bytes`, and `HeaderValue::to_str`.
  pub header_name : Bytes → Outcome Flaw Bytes
  pub header_value : Bytes → Outcome Flaw Bytes
  pub to_str : Bytes → Option Bytes
  -- `HeaderValue::from_str`, which `parse` calls.
  pub parse_value : Bytes → Outcome Flaw Bytes
  -- `httparse::parse_headers`: the bytes it took and the headers; none stands for `Partial`.
  pub httparse_headers : Bytes → Outcome Flaw (Option (ℕ × List (Bytes × Bytes)))
  -- `Uri`, `Method` and `StatusCode`: the text of each and the conversion from it.
  pub Uri : Type 0
  pub Method : Type 0
  pub StatusCode : Type 0
  pub Version : Type 0
  -- Of a status, `Display`: `200 OK`.
  pub uri_text : Uri → Bytes
  pub uri_try_from : Bytes → Outcome Flaw Uri
  pub method_text : Method → Bytes
  pub method_from_bytes : Bytes → Outcome Flaw Method
  pub status_text : StatusCode → Bytes
  pub status_from_bytes : Bytes → Outcome Flaw StatusCode
  -- The constants of `Version`, and its text under `{:?}`.
  pub http_09 : Version
  pub http_10 : Version
  pub http_11 : Version
  pub http_2 : Version
  pub version_debug : Version → Bytes
