-- ===== src/Server/Webhook.antt =====
-- server/server.go: `getAccessFromWebhook`, over net/http.
pub mod Answer
pub mod Headers
use mathlib.Core.List.{foldl}
use ftpserver.Base.{
  ◌≡◌, refl, ℕ, ◌+◌, ◌-◌, Bool, true, false, ◌&&◌, ◌||◌, Option, none, some, List, [], ◌∷◌, Text,
  bytes, text_eq, leb, ◌==◌, if◌then◌else◌, Error, unexpected_status, Result, ok, err, ◌>>=◌,
}
use ftpserver.Confpar.{Access, AccessesWebhook}

pub record Request : Type 0 where
  pub method : Text
  pub url : Text
  pub headers : List (Text × Text)
  pub body : Text
  pub timeout : ℕ

pub record Response : Type 0 where
  pub status_code : ℕ
  pub body : Text

-- encoding/json and the HTTP client. `unmarshal_access` gives no access for the text `null`.
pub record Http : Type 0 where
  pub marshal_credentials : (user pass : Text) → Result Text
  pub new_request : (method url : Text) → Option Error
  pub do_request : Request → Result Response
  pub read_all : Response → Result Text
  pub unmarshal_access : Text → Result (Option Access)

is_upper : ℕ → Bool
is_upper c = leb b'A' c && leb c b'Z'

is_lower : ℕ → Bool
is_lower c = leb b'a' c && leb c b'z'

-- The bytes of a header name: letters, digits and the marks of RFC 7230.
is_token_byte : ℕ → Bool
is_token_byte c =
    is_upper c
    || is_lower c
    || (leb b'0' c && leb c b'9')
    || (leb b'#' c && leb c b'\'')
    || c == b'!'
    || c == b'*'
    || c == b'+'
    || c == b'-'
    || c == b'.'
    || c == b'^'
    || c == b'_'
    || c == b'`'
    || c == b'|'
    || c == b'~'

is_token : Text → Bool
is_token [] = true
is_token (c ∷ s) = is_token_byte c && is_token s

-- Upper case for the first letter and behind a dash, lower case elsewhere.
capitalize : Bool → Text → Text
capitalize start [] = []
capitalize true (c ∷ s) = (if is_lower c then c - 32 else c) ∷ capitalize (c == b'-') s
capitalize false (c ∷ s) = (if is_upper c then c + 32 else c) ∷ capitalize (c == b'-') s

-- `textproto.CanonicalMIMEHeaderKey`.
unfoldable pub canonical : Text → Text
unfolding is_token is_token_byte is_upper is_lower capitalize
canonical key = if is_token key then capitalize true key else key

-- `Header.Set`, over the headers in the order of their first setting.
put_header : Text → Text → List (Text × Text) → List (Text × Text)
put_header key value [] = (key, value) ∷ []
put_header key value ((k, v) ∷ headers) =
    if text_eq k key then (key, value) ∷ headers else (k, v) ∷ put_header key value headers

unfoldable pub set_header : List (Text × Text) → Text × Text → List (Text × Text)
unfolding canonical put_header text_eq
set_header headers (key, value) = put_header (canonical key) value headers

-- The headers of the request: those of the configuration come last, in the order of the list.
unfoldable pub request_headers : AccessesWebhook → List (Text × Text)
unfolding set_header
request_headers w =
    foldl set_header (set_header [] (bytes "Content-Type", bytes "application/json")) w.headers

check_request : Option Error → Result (Unit {0})
check_request none = ok tt
check_request (some e) = err e

check_status : Response → Result (Unit {0})
check_status resp = if resp.status_code == 200 then ok tt else err unexpected_status

module _ (http : Http) where
  open http use {marshal_credentials, new_request, do_request, read_all, unmarshal_access}

  -- `getAccessFromWebhook`; no access is the nil pointer.
  unfoldable pub get_access_from_webhook : AccessesWebhook → Text → Text → Result (Option Access)
  unfolding check_request check_status request_headers
  get_access_from_webhook w user pass = do
    body ← marshal_credentials user pass
    checked ← check_request (new_request (bytes "POST") w.url)
    let request : Request = record {
      method = bytes "POST";
      url = w.url;
      headers = request_headers w;
      body = body;
      timeout = w.timeout;
    }
    resp ← do_request request
    good ← check_status resp
    text ← read_all resp
    unmarshal_access text

canonical_tests :
    (canonical (bytes "content-TYPE") ≡ bytes "Content-Type")
    × (canonical (bytes "x token") ≡ bytes "x token")
unfolding canonical
canonical_tests = (refl, refl)

-- A configured header replaces the content type, however it is spelled.
headers_test :
    request_headers (record {
      url = bytes "http://auth";
      headers = (bytes "content-type", bytes "text/plain") ∷ (bytes "Token", bytes "t") ∷ [];
      timeout = 0;
    })
    ≡ (bytes "Content-Type", bytes "text/plain") ∷ (bytes "Token", bytes "t") ∷ []
unfolding request_headers
headers_test = refl
