-- ===== src/Examples/Pages.antt =====
-- Tests of the text functions and of URLs.
use testforge.Base.{
  if◌then◌else◌, leb, eq_bytes, negsuc, pos, refl, some, [], false, true, ◌∷◌, ◌||◌, ◌&&◌, ◌≡◌,
  ◌==◌, All, codes, any, arith,
}
use testforge.Strings.Pieces.{join-split, split, join}
use testforge.Strings.Reading.{parse_int-decimal, parse_int}
use testforge.Url.Percent.{url_decode-url_encode, url_encode, url_decode}
use testforge.Url.{parse_url, Url}
use testforge.Url.Policy.{reject-accepts, dotted, reject, UrlPolicy}
use testforge.Strings.Markup.{escapes_safe, escape_html, is_html_safe, escape_xml, is_xml_safe}
use testforge.Decimal.{decimal}
use testforge.Strings.Case.{equals_ignore_case}
use testforge.Http.{set_header, get_all_headers, HttpHeaders}
use testforge.Http.Headers.{get_all_headers-set_header}

join-split_example : join (split (codes "a,,b") b',' false) (b',' ∷ []) ≡ codes "a,,b"
join-split_example = join-split (codes "a,,b") b','

split_skips : split (codes "a,,b") b',' true ≡ codes "a" ∷ codes "b" ∷ []
unfolding split
split_skips = refl

escapes_safe_example :
    All (λ d. is_xml_safe d ≡ true) (escape_xml (codes "<a href='x'>&"))
    × All (λ d. is_html_safe d ≡ true) (escape_html (codes "<a href='x'>&"))
escapes_safe_example = escapes_safe (codes "<a href='x'>&")

parse_int-decimal_example : parse_int (decimal (negsuc 4095)) ≡ some (negsuc 4095)
parse_int-decimal_example = parse_int-decimal (negsuc 4095) (omega arith)

parse_int_blanks : parse_int (codes " +42 ") ≡ some (pos 42)
unfolding parse_int
parse_int_blanks = refl

url_decode-url_encode_example : url_decode (url_encode (codes "a b%2F+c")) ≡ codes "a b%2F+c"
url_decode-url_encode_example = url_decode-url_encode (codes "a b%2F+c") (
  omega arith,
  (
    omega arith,
    (omega arith, (omega arith, (omega arith, (omega arith, (omega arith, (omega arith, tt)))))),
  ),
)

abbrev service : Url
service = record {
  scheme = codes "http";
  host = codes "10.0.0.7";
  port = 8080;
  path = codes "/api";
  query = [];
  fragment = [];
}

parse_service : parse_url (codes " HTTP://user@10.0.0.7:8080/api") ≡ some service
unfolding parse_url any
parse_service = refl

-- A query that no slash precedes is taken for a part of the host.
parse_without_slash :
    parse_url (codes "http://h?x=1")
    ≡ some (record {
      scheme = codes "http";
      host = codes "h?x=1";
      port = 80;
      path = codes "/";
      query = [];
      fragment = [];
    })
unfolding parse_url any
parse_without_slash = refl

abbrev lenient : UrlPolicy
lenient = record {
  allowed_schemes = codes "http" ∷ codes "https" ∷ [];
  allowed_hosts = [];
  block_link_local = true;
  block_loopback = true;
  block_private_networks = false;
}

lenient-accepts : reject lenient service ≡ []
unfolding reject any eq_bytes equals_ignore_case
lenient-accepts = refl

service_host : service.host ≡ dotted 10 0 0 7
unfolding decimal
service_host = refl

reject-accepts_example :
    (any (λ scheme. eq_bytes scheme (codes "http")) lenient.allowed_schemes ≡ true)
    × ((true && 10 == 127) ≡ false)
    × ((true && 10 == 169 && 0 == 254) ≡ false)
    × ((false && (10 == 10 || 10 == 172 && (leb 16 0 && leb 0 31) || 10 == 192 && 0 == 168))
        ≡ false)
reject-accepts_example =
    reject-accepts lenient service 10 0 0 7 (omega arith) (omega arith) (omega arith) (omega arith)
      service_host refl lenient-accepts

abbrev cookies : HttpHeaders
cookies =
    (codes "Accept", codes "a") ∷ (codes "COOKIE", codes "b") ∷ (codes "cookie", codes "c") ∷ []

get_all_headers-set_header_example :
    get_all_headers (codes "cookie") (set_header (codes "Cookie") (codes "d") cookies) ≡ (
      if equals_ignore_case (codes "Cookie") (codes "cookie")
      then codes "d" ∷ []
      else get_all_headers (codes "cookie") cookies)
get_all_headers-set_header_example =
    get_all_headers-set_header (codes "Cookie") (codes "d") (codes "cookie") cookies
