-- ===== src/Url.antt =====
-- URLs (include/testforge/net/Url.hpp, src/net/Url.cpp): parsing, joining and writing them.
pub mod Percent
pub mod Policy
pub mod Joined
use testforge.Strings.Search.{contains}
use testforge.Strings.Search.{find}
use testforge.Base.{
  drop, not, ltb, leb, any, take, Option, Bool, codes, is_empty, negsuc, pos, some, none, [], ◌++◌,
  ◌∷◌, ◌||◌, ◌&&◌, ◌+◌, if◌then◌else◌, ◌==◌, Bytes, eq_bytes, ℕ, arith,
}
use testforge.Decimal.{decimal}
use testforge.Strings.Reading.{parse_int}
use testforge.Strings.Pieces.{cut}
use testforge.Strings.Case.{to_lower, trim}
use testforge.Strings.Search.{starts_with}

pub record Url : Type 0 where
  pub scheme : Bytes
  pub host : Bytes
  pub port : ℕ
  pub path : Bytes
  pub query : Bytes
  pub fragment : Bytes

unfoldable pub default_port_for : Bytes → ℕ
unfolding eq_bytes
default_port_for scheme =
    if eq_bytes scheme (codes "https")
    then 443
    else if eq_bytes scheme (codes "http")
    then 80
    else 0

unfoldable pub request_target : Url → Bytes
request_target u =
    let target = if is_empty u.path then b'/' ∷ [] else u.path in
    if is_empty u.query then target else target ++ b'?' ∷ u.query

unfoldable pub authority : Url → Bytes
unfolding default_port_for decimal
authority u =
    if u.port == 0 || u.port == default_port_for u.scheme
    then u.host
    else u.host ++ b':' ∷ decimal (pos u.port)

unfoldable pub to_string : Url → Bytes
unfolding authority request_target
to_string u =
    u.scheme
    ++ codes "://"
    ++ authority u
    ++ request_target u
    ++ (if is_empty u.fragment then [] else b'#' ∷ u.fragment)

unfoldable pub is_alnum : ℕ → Bool
is_alnum c = leb b'0' c && leb c b'9' || leb b'A' c && leb c b'Z' || leb b'a' c && leb c b'z'

unfoldable is_scheme_char : ℕ → Bool
unfolding is_alnum
is_scheme_char c = is_alnum c || c == b'+' || c == b'-' || c == b'.'

-- `none` is a port that is no number from 1 to 65535.
unfoldable pub parse_port : Bytes → Option ℕ
unfolding parse_int
parse_port text = elim (parse_int text) [
  | none ↦ none
  | some (negsuc n) ↦ none
  | some (pos n) ↦ if n == 0 || ltb 65535 n then none else some n
]

-- `authority.rfind(c)`: what stands before and behind the last `c`.
unfoldable pub cut_last : ℕ → Bytes → Option (Bytes × Bytes)
cut_last d [] = none
cut_last d (c ∷ s) = elim (cut_last d s) [
  | none ↦ if c == d then some ([], s) else none
  | some (front, back) ↦ some (c ∷ front, back)
]

-- The host and the port of an authority; a port of 0 was not written.
unfoldable bracketed : Bytes → Option (Bytes × ℕ)
unfolding cut parse_port
bracketed text = elim (cut b']' text).1 [
  | none ↦ none
  | some [] ↦ some ((cut b']' text).0, 0)
  | some (c ∷ s) ↦
      if c == b':'
      then elim (parse_port s) [ none ↦ none | some port ↦ some ((cut b']' text).0, port) ]
      else none
]

unfoldable unbracketed : Bytes → Option (Bytes × ℕ)
unfolding cut_last parse_port
unbracketed text = elim (cut_last b':' text) [
  | none ↦ some (text, 0)
  | some (front, back) ↦ elim (parse_port back) [ none ↦ none | some port ↦ some (front, port) ]
]

unfoldable pub host_and_port : Bytes → Option (Bytes × ℕ)
unfolding bracketed unbracketed
host_and_port [] = none
host_and_port (c ∷ s) =
    let literal = bracketed s in
    let plain = unbracketed (c ∷ s) in if c == b'[' then literal else plain

unfoldable with_host : Bytes → Bytes → Bytes → Bytes → Option (Bytes × ℕ) → Option Url
unfolding to_lower default_port_for
with_host scheme path query fragment none = none
with_host scheme path query fragment (some (host, port)) =
    if is_empty host
    then none
    else some (record {
      scheme = scheme;
      host = to_lower host;
      port = if port == 0 then default_port_for scheme else port;
      path = if is_empty path then b'/' ∷ [] else path;
      query = query;
      fragment = fragment;
    })

-- The part behind "://".
unfoldable pub parse_behind_scheme : Bytes → Bytes → Option Url
unfolding is_scheme_char cut host_and_port with_host
parse_behind_scheme scheme text =
    let parts = cut b'#' text in
    let rest = cut b'/' parts.0 in
    let target = elim rest.1 as (λ _. Bytes) [ none ↦ b'/' ∷ [] | some p ↦ b'/' ∷ p ] in
    let name = elim (cut b'@' rest.0).1 as (λ _. Bytes) [ none ↦ rest.0 | some behind ↦ behind ] in
    let path = (cut b'?' target).0 in
    let query = elim (cut b'?' target).1 as (λ _. Bytes) [ none ↦ [] | some q ↦ q ] in
    let fragment = elim parts.1 as (λ _. Bytes) [ none ↦ [] | some f ↦ f ] in
    if any (λ c. not (is_scheme_char c)) scheme || is_empty text
    then none
    else with_host scheme path query fragment (host_and_port name)

unfoldable pub parse_url : Bytes → Option Url
unfolding trim find to_lower parse_behind_scheme
parse_url text =
    let trimmed = trim text in
    elim (find (codes "://") trimmed) [
      | none ↦ none
      | some i ↦
          if i == 0
          then none
          else parse_behind_scheme (to_lower (take i trimmed)) (drop (i + 3) trimmed)
    ]

-- The loop that drops the slashes at the end of the base path.
unfoldable strip_slashes : Bytes → Bytes
strip_slashes [] = []
strip_slashes (c ∷ s) =
    let rest = strip_slashes s in if is_empty rest && c == b'/' then [] else c ∷ rest

unfoldable with_slash : Bytes → Bytes
with_slash [] = b'/' ∷ []
with_slash (c ∷ s) = if c == b'/' then c ∷ s else b'/' ∷ c ∷ s

-- The suffix under the URL that the base text names.
unfoldable join_under : Bytes → Option Url → Option Bytes
unfolding strip_slashes cut to_string
join_under suffix none = none
join_under suffix (some u) = some (
    to_string (record {
      scheme = u.scheme;
      host = u.host;
      port = u.port;
      path = strip_slashes u.path ++ (cut b'?' suffix).0;
      query = elim (cut b'?' suffix).1 as (λ _. Bytes) [ none ↦ [] | some q ↦ q ];
      fragment = [];
    }))

unfoldable pub join_url : Bytes → Bytes → Option Bytes
unfolding contains starts_with parse_url with_slash join_under
join_url base path =
    if contains path (codes "..")
    then none
    else if starts_with path (codes "http://") || starts_with path (codes "https://")
    then elim (parse_url path) [ none ↦ none | some u ↦ some path ]
    else join_under (with_slash path) (parse_url base)
