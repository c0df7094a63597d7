-- ===== src/Examples/Web.antt =====
-- Headers, URLs, methods, versions and status codes as texts.
use body_image.Common.{
  ◌≡◌, refl, ap, ==_refl, List, [], ◌∷◌, ◌++◌, Bool, true, false, if◌then◌else◌, Option, none, some,
  Outcome, ok, err, length, ascii,
}
use body_image.Io.{Bytes}
use body_image.Http.{Http, Flaw}
use body_image.Barc.Format.{same_bytes}
use body_image.Barc.Convert.Laws.{visible, HttpLaws}

abbrev find : Bytes → List (Bytes × Bytes) → Option Bytes
find name [] = none
find name ((k, v) ∷ rest) = if same_bytes k name then some v else find name rest

pub data Method : Type 0 where
  get post : Method

pub data Version : Type 0 where
  v09 v10 v11 v2 : Version

pub data Status : Type 0 where
  ok_200 not_found_404 : Status

abbrev method_text : Method → Bytes
method_text get = ascii "GET"
method_text post = ascii "POST"

abbrev read_method : Bytes → Outcome Flaw Method
read_method b =
    if same_bytes b (ascii "GET")
    then ok get
    else if same_bytes b (ascii "POST")
    then ok post
    else err b

abbrev status_text : Status → Bytes
status_text ok_200 = ascii "200 OK"
status_text not_found_404 = ascii "404 Not Found"

abbrev read_status : Bytes → Outcome Flaw Status
read_status b =
    if same_bytes b (ascii "200")
    then ok ok_200
    else if same_bytes b (ascii "404")
    then ok not_found_404
    else err b

abbrev version_text : Version → Bytes
version_text v09 = ascii "HTTP/0.9"
version_text v10 = ascii "HTTP/1.0"
version_text v11 = ascii "HTTP/1.1"
version_text v2 = ascii "HTTP/2.0"

-- The URL of two pages.
pub data Url : Type 0 where
  root page : Url

abbrev url_text : Url → Bytes
url_text root = ascii "/"
url_text page = ascii "/page"

abbrev read_url : Bytes → Outcome Flaw Url
read_url b =
    if same_bytes b (ascii "/")
    then ok root
    else if same_bytes b (ascii "/page")
    then ok page
    else err b

-- Maps as lists of their entries, and a parser that finds no header.
instance abbrev pub web : Http
web = record {
  HeaderMap = List (Bytes × Bytes);
  empty_map = [];
  append = λ k v m. m ++ ((k, v) ∷ []);
  entries = λ m. m;
  get = find;
  header_name = λ b. ok b;
  header_value = λ b. ok b;
  to_str = λ b. some b;
  parse_value = λ b. ok b;
  httparse_headers = λ b. ok (some (length b, []));
  Uri = Url;
  Method = Method;
  StatusCode = Status;
  Version = Version;
  uri_text = url_text;
  uri_try_from = read_url;
  method_text = method_text;
  method_from_bytes = read_method;
  status_text = status_text;
  status_from_bytes = read_status;
  http_09 = v09;
  http_10 = v10;
  http_11 = v11;
  http_2 = v2;
  version_debug = version_text;
}

abbrev found : Bool → Bytes → Option Bytes → Option Bytes
found b x rest = if b then some x else rest

find_tail :
    (b : Bool) (x : Bytes) (o : Option Bytes) → found b x o ≡ none → (b ≡ false) × (o ≡ none)
find_tail true x o e = cc
find_tail false x o e = (refl, e)

same_bytes_refl : (b : Bytes) → same_bytes b b ≡ true
same_bytes_refl [] = refl
same_bytes_refl (x ∷ b) = rw (==_refl x, same_bytes_refl b) refl

find_new :
    (n v : Bytes) (h : List (Bytes × Bytes))
    → find n h ≡ none
    → find n (h ++ ((n, v) ∷ [])) ≡ some v
find_new n v [] e = rw (same_bytes_refl n) refl
find_new n v ((k, x) ∷ h) e =
    let (other, rest) = find_tail (same_bytes k n) x (find n h) e in rw other (find_new n v h rest)

find_other :
    (n m v : Bytes) (h : List (Bytes × Bytes))
    → same_bytes m n ≡ false
    → find n (h ++ ((m, v) ∷ [])) ≡ find n h
find_other n m v [] e = rw e refl
find_other n m v ((k, x) ∷ h) e = ap (found (same_bytes k n) x) (find_other n m v h e)

url_visible : (u : Url) → visible (url_text u) ≡ true
url_visible root = refl
url_visible page = refl

url_lem : (u : Url) → read_url (url_text u) ≡ ok u
url_lem root = refl
url_lem page = refl

method_visible : (m : Method) → visible (method_text m) ≡ true
method_visible get = refl
method_visible post = refl

method_lem : (m : Method) → read_method (method_text m) ≡ ok m
method_lem get = refl
method_lem post = refl

status_visible : (s : Status) → visible (status_text s) ≡ true
status_visible ok_200 = refl
status_visible not_found_404 = refl

abbrev status_digits : Status → Bytes
status_digits ok_200 = ascii "200"
status_digits not_found_404 = ascii "404"

abbrev status_reason : Status → Bytes
status_reason ok_200 = ascii "OK"
status_reason not_found_404 = ascii "Not Found"

status_shown : (s : Status) → status_text s ≡ status_digits s ++ (b' ' ∷ status_reason s)
status_shown ok_200 = refl
status_shown not_found_404 = refl

three_digits : (s : Status) → length (status_digits s) ≡ 3
three_digits ok_200 = refl
three_digits not_found_404 = refl

status_lem : (s : Status) → read_status (status_digits s) ≡ ok s
status_lem ok_200 = refl
status_lem not_found_404 = refl

pub web-HttpLaws : HttpLaws web
web-HttpLaws = record {
  get_empty = λ n. refl;
  get_new = find_new;
  get_other = find_other;
  value = λ t h. refl;
  text = λ t h. refl;
  url_visible = url_visible;
  url = url_lem;
  method_visible = method_visible;
  method = method_lem;
  status_visible = status_visible;
  digits = status_digits;
  reason = status_reason;
  status_shown = status_shown;
  three_digits = three_digits;
  status = status_lem;
  version_09 = refl;
  version_10 = refl;
  version_11 = refl;
  version_2 = refl;
}
