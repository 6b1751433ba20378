-- ===== src/Http.antt =====
-- Headers and messages of HTTP (include/testforge/net/HttpTypes.hpp, src/net/HttpTypes.cpp).
pub mod Headers
use testforge.Base.{
  ltb, Option, is_empty, leb, codes, Bool, negsuc, inr, inl, some, none, [], false, true, ◌++◌, ◌∷◌,
  ◌&&◌, ◌⊎◌, if◌then◌else◌, ◌==◌, ℕ, Bytes, List, arith,
}
use testforge.Strings.Case.{trim, equals_ignore_case}
use testforge.Json.Text.Printer.{dump}
use testforge.Json.Text.Parser.{ParseLimits, try_parse}
use testforge.Strings.Pieces.{cut}
use testforge.Json.Text.Number.{CLibrary}
use testforge.Strings.Shaping.{truncate}
use testforge.Json.{null, Value}

-- `HttpHeaders`: the pairs of names and values, in order.
abbrev pub HttpHeaders : Type 0
HttpHeaders = List (Bytes × Bytes)

unfoldable pub add_header : Bytes → Bytes → HttpHeaders → HttpHeaders
add_header name v headers = headers ++ (name, v) ∷ []

-- `std::remove_if` with `erase`: the others keep their order.
unfoldable pub remove_header : Bytes → HttpHeaders → HttpHeaders
unfolding equals_ignore_case
remove_header name [] = []
remove_header name ((k, v) ∷ headers) =
    let others = remove_header name headers in
    if equals_ignore_case k name then others else (k, v) ∷ others

unfoldable pub set_header : Bytes → Bytes → HttpHeaders → HttpHeaders
unfolding remove_header add_header
set_header name v headers = add_header name v (remove_header name headers)

unfoldable pub get_header : Bytes → HttpHeaders → Option Bytes
unfolding equals_ignore_case
get_header name [] = none
get_header name ((k, v) ∷ headers) =
    let later = get_header name headers in if equals_ignore_case k name then some v else later

unfoldable pub get_header_or : Bytes → Bytes → HttpHeaders → Bytes
unfolding get_header
get_header_or name fallback headers = elim (get_header name headers) [
  | none ↦ fallback
  | some v ↦ v
]

unfoldable pub contains_header : Bytes → HttpHeaders → Bool
unfolding get_header
contains_header name headers = elim (get_header name headers) [ none ↦ false | some v ↦ true ]

unfoldable pub get_all_headers : Bytes → HttpHeaders → List Bytes
unfolding equals_ignore_case
get_all_headers name [] = []
get_all_headers name ((k, v) ∷ headers) =
    let others = get_all_headers name headers in
    if equals_ignore_case k name then v ∷ others else others

pub record HttpRequest : Type 0 where
  pub method : Bytes
  pub url : Bytes
  pub headers : HttpHeaders
  pub body : Bytes

-- `HttpRequest::jsonPost`.
unfoldable pub json_post : CLibrary → Bytes → Value → HttpRequest
unfolding set_header dump
json_post libc url payload = record {
  method = codes "POST";
  url = url;
  headers =
      set_header (codes "Accept") (codes "application/json")
        (set_header (codes "Content-Type") (codes "application/json") []);
  body = dump libc (negsuc 0) payload;
}

-- `HttpRequest::get`.
unfoldable pub get_request : Bytes → HttpRequest
unfolding set_header
get_request url = record {
  method = codes "GET";
  url = url;
  headers = set_header (codes "Accept") (codes "application/json") [];
  body = [];
}

-- The parts of `HttpResponse` that the functions below read.
pub record HttpResponse : Type 0 where
  pub request_method : Bytes
  pub request_url : Bytes
  pub response_headers : HttpHeaders
  pub response_body : Bytes

unfoldable pub describe_target : HttpResponse → Bytes
describe_target r =
    if is_empty r.request_method && is_empty r.request_url
    then codes "<unknown request>"
    else r.request_method ++ b' ' ∷ r.request_url

-- `HttpResponse::json`.
unfoldable pub json_body : CLibrary → ParseLimits → HttpResponse → Option Value
unfolding try_parse
json_body libc limits r =
    if is_empty r.response_body then none else elim (try_parse libc limits r.response_body) [
      | none ↦ none
      | some (inl text) ↦ none
      | some (inr v) ↦ some v
    ]

-- `HttpResponse::jsonOrThrow`: the value, or the message and the excerpt of the AssertionFailure.
unfoldable pub json_or_throw :
    CLibrary → ParseLimits → HttpResponse → Option ((Bytes × Bytes) ⊎ Value)
unfolding try_parse describe_target truncate
json_or_throw libc limits r =
    if is_empty r.response_body
    then some (inr null)
    else elim (try_parse libc limits r.response_body) [
      | none ↦ none
      | some (inl text) ↦ some (
          inl (
            codes "response body is not valid JSON for " ++ describe_target r ++ codes ": " ++ text,
            truncate r.response_body 400,
          ))
      | some (inr v) ↦ some (inr v)
    ]

unfoldable pub content_type : HttpResponse → Bytes
unfolding get_header_or cut trim
content_type r = trim (cut b';' (get_header_or (codes "Content-Type") [] r.response_headers)).0

abbrev phrases : List (ℕ × Bytes)
phrases =
    (200, codes "OK")
    ∷ (201, codes "Created")
    ∷ (202, codes "Accepted")
    ∷ (204, codes "No Content")
    ∷ (301, codes "Moved Permanently")
    ∷ (302, codes "Found")
    ∷ (304, codes "Not Modified")
    ∷ (400, codes "Bad Request")
    ∷ (401, codes "Unauthorized")
    ∷ (403, codes "Forbidden")
    ∷ (404, codes "Not Found")
    ∷ (405, codes "Method Not Allowed")
    ∷ (408, codes "Request Timeout")
    ∷ (409, codes "Conflict")
    ∷ (413, codes "Payload Too Large")
    ∷ (415, codes "Unsupported Media Type")
    ∷ (422, codes "Unprocessable Entity")
    ∷ (429, codes "Too Many Requests")
    ∷ (500, codes "Internal Server Error")
    ∷ (501, codes "Not Implemented")
    ∷ (502, codes "Bad Gateway")
    ∷ (503, codes "Service Unavailable")
    ∷ (504, codes "Gateway Timeout")
    ∷ []

unfoldable phrase_of : ℕ → List (ℕ × Bytes) → Option Bytes
phrase_of code [] = none
phrase_of code ((c, phrase) ∷ rest) =
    let later = phrase_of code rest in if c == code then some phrase else later

-- `reasonPhrase`; a negative code is unknown too.
unfoldable pub reason_phrase : ℕ → Bytes
unfolding phrase_of
reason_phrase code = elim (phrase_of code phrases) [
  | some phrase ↦ phrase
  | none ↦
      if leb 200 code && ltb code 300
      then codes "Success"
      else if leb 400 code && ltb code 500
      then codes "Client Error"
      else if leb 500 code
      then codes "Server Error"
      else codes "Unknown"
]
