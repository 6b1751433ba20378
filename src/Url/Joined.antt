-- ===== src/Url/Joined.antt =====
-- The server that a joined URL names (src/net/Url.cpp: joinUrl).
use testforge.Base.{
  eq_bytes, subst, append-nil, if_cases, ◌++◌, ◌&&◌, if_false, sym, codes, ap, not, any, is_empty,
  Bool-cases, Option-cases, ℕ, Option, inr, inl, refl, some, none, [], false, ◌∷◌, ◌||◌, ◌∙◌, ◌≡◌,
  if◌then◌else◌, ◌==◌, Bytes, arith,
}
use testforge.Strings.Pieces.{cut}
use testforge.Url.{
  to_string, join_under, with_slash, authority, request_target, join_url, strip_slashes,
  is_scheme_char, trim, Url, with_host, parse_url, parse_behind_scheme,
}
use testforge.Strings.Search.{contains, starts_with, find}

abbrev IsRooted : Bytes → Type 0
IsRooted path = (rest : Bytes) × (path ≡ b'/' ∷ rest)

with_host-path :
    (scheme path query fragment : Bytes) (place : Option (Bytes × ℕ)) (u : Url)
    → IsRooted path
    → with_host scheme path query fragment place ≡ some u
    → IsRooted u.path
unfolding with_host
with_host-path scheme path query fragment none u r h = absurd (cc)
with_host-path scheme path query fragment (some (host, port)) u r h =
    elim (Bool-cases (is_empty host)) [
      | inl e ↦ absurd (cc (rw e at h))
      | inr e ↦
          let same : (if is_empty path then b'/' ∷ [] else path) ≡ u.path =
            ap (λ (o : Option Url). elim o [ none ↦ [] | some v ↦ v.path ]) (rw e at h) in
          let full : is_empty path ≡ false = rw r.1 in (r.0, sym same ∙ if_false _ _ _ full ∙ r.1)
    ]

target-IsRooted :
    (later : Option Bytes)
    → IsRooted (cut b'?' (elim later as (λ _. Bytes) [ none ↦ b'/' ∷ [] | some p ↦ b'/' ∷ p ])).0
unfolding cut
target-IsRooted none = ([], refl)
target-IsRooted (some p) = ((cut b'?' p).0, refl)

parse_behind_scheme-path :
    (scheme text : Bytes) (u : Url) → parse_behind_scheme scheme text ≡ some u → IsRooted u.path
unfolding parse_behind_scheme
parse_behind_scheme-path scheme text u h =
    elim (Bool-cases (any (λ c. not (is_scheme_char c)) scheme || is_empty text)) [
      | inl e ↦ absurd (cc (rw e at h))
      | inr e ↦ with_host-path _ _ _ _ _ u (target-IsRooted _) (rw e at h)
    ]

parse_url-path : (text : Bytes) (u : Url) → parse_url text ≡ some u → IsRooted u.path
unfolding parse_url
parse_url-path text u h = elim (Option-cases (find (codes "://") (trim text))) [
  | inl e ↦ absurd (cc (rw (e, parse_url) at h))
  | inr (i, e) ↦ elim (Bool-cases (i == 0)) [
    | inl z ↦ absurd (cc (rw (e, parse_url, z) at h))
    | inr z ↦ parse_behind_scheme-path _ _ u (rw (e, parse_url, z) at h)
  ]
]

strip_slashes-IsRooted :
    (path q : Bytes) → IsRooted path → IsRooted (strip_slashes path ++ b'/' ∷ q)
unfolding strip_slashes
strip_slashes-IsRooted [] q (rest, e) = absurd (cc)
strip_slashes-IsRooted (c ∷ s) q (rest, e) =
    if_cases (λ (t : Bytes). IsRooted (t ++ b'/' ∷ q)) (is_empty (strip_slashes s) && c == b'/') _ _
      (λ _. (q, refl)) (λ _. (strip_slashes s ++ b'/' ∷ q, cc))

request_target-IsRooted : (u : Url) → IsRooted u.path → IsRooted (request_target u)
unfolding request_target
request_target-IsRooted u (rest, e) =
    let full : is_empty u.path ≡ false = rw e in
    rw full (
      if_cases IsRooted (is_empty u.query) _ _ (λ _. (rest, e))
        (λ _. (rest ++ b'?' ∷ u.query, ap (λ t. t ++ b'?' ∷ u.query) e)))

cut-IsRooted : (path : Bytes) → IsRooted path → IsRooted (cut b'?' path).0
unfolding cut
cut-IsRooted [] (rest, e) = absurd (cc)
cut-IsRooted (c ∷ s) (rest, e) = let slash : c ≡ b'/' = cc in rw slash ((cut b'?' s).0, refl)

-- A text that names a server: the scheme, the host and the port of the URL, and behind them a slash.
abbrev pub NamesServer : Url → Bytes → Type 0
NamesServer u text = (rest : Bytes) × (text ≡ u.scheme ++ codes "://" ++ authority u ++ b'/' ∷ rest)

to_string_lem :
    (v : Url)
    → to_string v
      ≡ v.scheme
        ++ codes "://"
        ++ authority v
        ++ request_target v
        ++ (if is_empty v.fragment then [] else b'#' ∷ v.fragment)
unfolding to_string
to_string_lem v = refl

to_string-NamesServer :
    (u v : Url)
    → v.scheme ≡ u.scheme
    → authority v ≡ authority u
    → IsRooted (request_target v)
    → v.fragment ≡ []
    → NamesServer u (to_string v)
to_string-NamesServer u v s a (rest, t) f = (
  rest,
  rw (to_string_lem v, a, t, s, f)
      (append-nil (u.scheme ++ codes "://" ++ authority u ++ b'/' ∷ rest)),
)

join_under-server :
    (suffix resolved : Bytes) (base : Option Url)
    → IsRooted suffix
    → ((u : Url) → base ≡ some u → IsRooted u.path)
    → join_under suffix base ≡ some resolved
    → (u : Url) × (base ≡ some u) × NamesServer u resolved
unfolding join_under authority
join_under-server suffix resolved none r p h = absurd (cc)
join_under-server suffix resolved (some u) r p h =
    let (q, e) = cut-IsRooted suffix r in
    let v : Url = record {
      scheme = u.scheme;
      host = u.host;
      port = u.port;
      path = strip_slashes u.path ++ (cut b'?' suffix).0;
      query = elim (cut b'?' suffix).1 as (λ _. Bytes) [ none ↦ [] | some t ↦ t ];
      fragment = [];
    } in
    let rooted : IsRooted v.path =
      subst (λ t. IsRooted (strip_slashes u.path ++ t)) (sym e)
        (strip_slashes-IsRooted u.path q (p u refl)) in
    let same : to_string v ≡ resolved =
      ap (λ (o : Option Bytes). elim o [ none ↦ [] | some t ↦ t ]) h in
    (
      u,
      refl,
      subst (NamesServer u) same
          (to_string-NamesServer u v refl refl (request_target-IsRooted v rooted) refl),
    )

-- What joinUrl makes of a path that begins with a slash names the server of the base URL.
pub join_url-server :
    (base rest resolved : Bytes)
    → join_url base (b'/' ∷ rest) ≡ some resolved
    → (u : Url) × (parse_url base ≡ some u) × NamesServer u resolved
unfolding join_url with_slash starts_with eq_bytes
join_url-server base rest resolved h = elim (Bool-cases (contains (b'/' ∷ rest) (codes ".."))) [
  | inl e ↦ absurd (cc (rw (e, join_url) at h))
  | inr e ↦
      join_under-server (b'/' ∷ rest) resolved (parse_url base) (rest, refl)
        (λ u q. parse_url-path base u q) (ground (arith, e, h))
]
