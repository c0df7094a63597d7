-- ===== src/Barc/Convert/Laws.antt =====
-- What the conversions of a dialog rely on in the crate `http`, and the visible texts of encodings.
use body_image.Common.{
  ◌≡◌, refl, Bool, true, false, ◌&&◌, &&_left, &&_right, ltb, List, [], ◌∷◌, ◌++◌, none, some,
  length, ascii, ok,
}
use body_image.Io.{Bytes}
use body_image.Http.{Http}
use body_image.Image.{Encoding, encoding_text, chunked, deflate, gzip, brotli, compress, identity}
use body_image.Barc.Format.{same_bytes}
use body_image.Barc.Convert.{push_comma, join_encodings}

-- Characters that a header value may have and that `to_str` gives back.
abbrev pub visible : Bytes → Bool
visible [] = true
visible (c ∷ text) = (ltb 31 c && ltb c 127) && visible text

-- What the conversions rely on in the crate `http`, names being the lower-case bytes that a
-- `HeaderName` holds: a header map gives what was last appended
-- under a new name, visible text is a header value, and the texts of a URL, a method and a version
-- are visible and are read back. The text of a status is its three digits, a space and a reason
-- (`200 OK`); the digits are read back, and nothing is known of reading the whole text.
pub record HttpLaws (ht : Http) : Type 0 where
  pub get_empty : (n : Bytes) → ht.get n ht.empty_map ≡ none
  pub get_new :
      (n v : Bytes) (h : ht.HeaderMap) → ht.get n h ≡ none → ht.get n (ht.append n v h) ≡ some v
  pub get_other :
      (n m v : Bytes) (h : ht.HeaderMap)
      → same_bytes m n ≡ false
      → ht.get n (ht.append m v h) ≡ ht.get n h
  pub value : (text : Bytes) → visible text ≡ true → ht.parse_value text ≡ ok text
  pub text : (v : Bytes) → visible v ≡ true → ht.to_str v ≡ some v
  pub url_visible : (u : ht.Uri) → visible (ht.uri_text u) ≡ true
  pub url : (u : ht.Uri) → ht.uri_try_from (ht.uri_text u) ≡ ok u
  pub method_visible : (m : ht.Method) → visible (ht.method_text m) ≡ true
  pub method : (m : ht.Method) → ht.method_from_bytes (ht.method_text m) ≡ ok m
  pub status_visible : (s : ht.StatusCode) → visible (ht.status_text s) ≡ true
  pub digits : ht.StatusCode → Bytes
  pub reason : ht.StatusCode → Bytes
  pub status_shown : (s : ht.StatusCode) → ht.status_text s ≡ digits s ++ (b' ' ∷ reason s)
  pub three_digits : (s : ht.StatusCode) → length (digits s) ≡ 3
  pub status : (s : ht.StatusCode) → ht.status_from_bytes (digits s) ≡ ok s
  pub version_09 : ht.version_debug ht.http_09 ≡ ascii "HTTP/0.9"
  pub version_10 : ht.version_debug ht.http_10 ≡ ascii "HTTP/1.0"
  pub version_11 : ht.version_debug ht.http_11 ≡ ascii "HTTP/1.1"
  pub version_2 : ht.version_debug ht.http_2 ≡ ascii "HTTP/2.0"

visible-append : (a b : Bytes) → visible a ≡ true → visible b ≡ true → visible (a ++ b) ≡ true
visible-append [] b h k = k
visible-append (c ∷ a) b h k =
    rw
      (
        &&_left (ltb 31 c && ltb c 127) (visible a) h,
        visible-append a b (&&_right (ltb 31 c && ltb c 127) (visible a) h) k,
      )
      refl

text-visible : (e : Encoding) → visible (encoding_text e) ≡ true
text-visible chunked = refl
text-visible deflate = refl
text-visible gzip = refl
text-visible brotli = refl
text-visible compress = refl
text-visible identity = refl

comma-visible : (joined : Bytes) → visible joined ≡ true → visible (push_comma joined) ≡ true
comma-visible [] h = refl
comma-visible (c ∷ joined) h = visible-append (c ∷ joined) (ascii ", ") h refl

pub join-visible :
    (joined : Bytes) (es : List Encoding)
    → visible joined ≡ true
    → visible (join_encodings joined es) ≡ true
unfolding join_encodings
join-visible joined [] h = h
join-visible joined (e ∷ es) h =
    join-visible (push_comma joined ++ encoding_text e) es (
      visible-append (push_comma joined) (encoding_text e) (comma-visible joined h)
        (text-visible e))
