-- ===== src/Url/Policy.antt =====
-- Which URLs may be requested (src/net/Url.cpp: isIpv4Literal, UrlPolicy::reject).
use testforge.Strings.Search.{starts_with}
use testforge.Base.{
  not-false, ap, pos, suc, ◌∙◌, is_empty, All, not, refl, ◌<◌, ◌≤◌, ◌≡◌, ltb, leb, get_elem?,
  length, codes, eq_bytes, Bool, ℕ, some, none, [], false, true, ◌++◌, ◌∷◌, ◌||◌, ◌&&◌, ◌*◌, ◌-◌,
  ◌+◌, if◌then◌else◌, ◌==◌, Option, List, any, Bytes, arith,
}
use testforge.Url.{Url, parse_url}
use testforge.Strings.Case.{equals_ignore_case}
use testforge.Decimal.{digits, read_digits-digits, decimal, read_digits}
use testforge.Strings.Reading.{digits_nonempty, digits-All, IsDecimalDigit}

pub record UrlPolicy : Type 0 where
  pub allowed_schemes : List Bytes
  pub allowed_hosts : List Bytes
  pub block_link_local : Bool
  pub block_loopback : Bool
  pub block_private_networks : Bool

-- The loop of `isIpv4Literal`: the octets that are complete, and the number under way, which is -1 in
-- the source where it is `none` here.
unfoldable ipv4_scan : Bytes → List ℕ → Option ℕ → Option (List ℕ)
ipv4_scan [] values none = none
ipv4_scan [] values (some n) = if length values == 3 then some (values ++ n ∷ []) else none
ipv4_scan (c ∷ s) values none =
    let started = ipv4_scan s values (some (c - b'0')) in
    if leb b'0' c && leb c b'9' then started else none
ipv4_scan (c ∷ s) values (some n) =
    let next = n * 10 + (c - b'0') in
    let longer = ipv4_scan s values (some next) in
    let complete = ipv4_scan s (values ++ n ∷ []) none in
    if leb b'0' c && leb c b'9'
    then if ltb 255 next then none else longer
    else if c == b'.'
    then if leb 3 (length values) then none else complete
    else none

unfoldable ipv4_literal : Bytes → Option (List ℕ)
unfolding ipv4_scan
ipv4_literal host = ipv4_scan host [] none

-- `octets[i]`, and false where the host is no literal.
abbrev octet_is : Option (List ℕ) → ℕ → (ℕ → Bool) → Bool
octet_is none i p = false
octet_is (some octets) i p = elim (get_elem? octets i) [ none ↦ false | some n ↦ p n ]

unfoldable pub reject : UrlPolicy → Url → Bytes
unfolding any eq_bytes equals_ignore_case ipv4_literal starts_with
reject policy u =
    let octets = ipv4_literal u.host in
    let is : ℕ → ℕ → Bool = λ i n. octet_is octets i (λ m. m == n) in
    let loopback_name =
      equals_ignore_case u.host (codes "localhost") || eq_bytes u.host (codes "::1") in
    let private_range =
      is 0 10
      || is 0 172 && octet_is octets 1 (λ m. leb 16 m && leb m 31)
      || is 0 192 && is 1 168 in
    if not (any (λ scheme. eq_bytes scheme u.scheme) policy.allowed_schemes)
    then codes "scheme '" ++ u.scheme ++ codes "' is not allowed"
    else if not (is_empty policy.allowed_hosts)
    then if any (λ host. equals_ignore_case host u.host) policy.allowed_hosts
      then []
      else codes "host '" ++ u.host ++ codes "' is not in the allow-list"
    else if policy.block_loopback && (loopback_name || is 0 127)
    then codes "loopback addresses are blocked by policy"
    else if policy.block_link_local && is 0 169 && is 1 254
    then codes "link-local addresses (including cloud metadata endpoints) are blocked"
    else if policy.block_link_local && starts_with u.host (codes "fe80:")
    then codes "link-local addresses are blocked"
    else if policy.block_private_networks && private_range
    then codes "private network addresses are blocked by policy"
    else []

unfoldable pub reject_raw : UrlPolicy → Bytes → Bytes
unfolding parse_url reject
reject_raw policy raw_url = elim (parse_url raw_url) [
  | none ↦ codes "not a valid absolute http(s) URL"
  | some u ↦ reject policy u
]

unfoldable pub restricted_to : Bytes → UrlPolicy
unfolding parse_url
restricted_to base_url = record {
  allowed_schemes = codes "http" ∷ codes "https" ∷ [];
  allowed_hosts = elim (parse_url base_url) [ none ↦ [] | some u ↦ u.host ∷ [] ];
  block_link_local = true;
  block_loopback = false;
  block_private_networks = false;
}

-- The digits of a number up to 255 behind others.
read_digits_mono : (s : Bytes) (acc : ℕ) → acc ≤ read_digits acc s
unfolding read_digits
read_digits_mono [] acc = omega arith
read_digits_mono (c ∷ s) acc = omega (arith, read_digits_mono s (acc * 10 + (c - b'0')))

ipv4_scan-digits :
    (s t : Bytes) (values : List ℕ) (acc : ℕ)
    → All IsDecimalDigit s
    → read_digits acc s < 256
    → ipv4_scan (s ++ t) values (some acc) ≡ ipv4_scan t values (some (read_digits acc s))
unfolding read_digits ipv4_scan
ipv4_scan-digits [] t values acc h b = refl
ipv4_scan-digits (c ∷ s) t values acc h b =
    let next = acc * 10 + (c - b'0') in
    let small : ltb 255 next ≡ false = ground (arith, read_digits_mono s next) in
    rw (h.0, small) (ipv4_scan-digits s t values next h.1 b)

read_digits-start : (c : ℕ) (s : Bytes) → read_digits 0 (c ∷ s) ≡ read_digits (c - b'0') s
unfolding read_digits
read_digits-start c s = ap (λ k. read_digits k s) (omega arith)

ipv4_scan-start :
    (s t : Bytes) (values : List ℕ)
    → All IsDecimalDigit s
    → is_empty s ≡ false
    → read_digits 0 s < 256
    → ipv4_scan (s ++ t) values none ≡ ipv4_scan t values (some (read_digits 0 s))
unfolding ipv4_scan
ipv4_scan-start [] t values h e b = cc
ipv4_scan-start (c ∷ s) t values h e b =
    let shift = read_digits-start c s in
    rw (h.0, shift) (ipv4_scan-digits s t values (c - b'0') h.1 (rw shift at b))

ipv4_scan-decimal :
    (n : ℕ) (t : Bytes) (values : List ℕ)
    → n < 256
    → ipv4_scan (decimal (pos n) ++ t) values none ≡ ipv4_scan t values (some n)
unfolding decimal
ipv4_scan-decimal n t values h =
    let whole = read_digits-digits (suc n) n (omega arith) in
    ipv4_scan-start (digits (suc n) n) t values (digits-All (suc n) n) (digits_nonempty n n)
      (omega (arith, whole))
    ∙ ap (λ k. ipv4_scan t values (some k)) whole

-- An address in the usual notation.
abbrev pub dotted : ℕ → ℕ → ℕ → ℕ → Bytes
dotted a b c d =
    decimal (pos a)
    ++ (b'.' ∷ (decimal (pos b) ++ (b'.' ∷ (decimal (pos c) ++ (b'.' ∷ (decimal (pos d) ++ []))))))

ipv4_scan-dot :
    (n : ℕ) (t : Bytes) (values : List ℕ)
    → length values < 3
    → ipv4_scan (b'.' ∷ t) values (some n) ≡ ipv4_scan t (values ++ n ∷ []) none
unfolding ipv4_scan
ipv4_scan-dot n t values h = ground arith

ipv4_literal-dotted :
    (a b c d : ℕ)
    → a < 256
    → b < 256
    → c < 256
    → d < 256
    → ipv4_literal (dotted a b c d) ≡ some (a ∷ b ∷ c ∷ d ∷ [])
unfolding ipv4_literal
ipv4_literal-dotted a b c d ha hb hc hd =
    rw
      (
        ipv4_scan-decimal a _ [] ha,
        ipv4_scan-dot a _ [] (omega arith),
        ipv4_scan-decimal b _ (a ∷ []) hb,
        ipv4_scan-dot b _ (a ∷ []) (omega arith),
        ipv4_scan-decimal c _ (a ∷ b ∷ []) hc,
        ipv4_scan-dot c _ (a ∷ b ∷ []) (omega arith),
        ipv4_scan-decimal d [] (a ∷ b ∷ c ∷ []) hd,
      )
      (unfold ipv4_scan in refl)

-- A branch with a text was not taken when no text came out.
passed :
    (b : Bool) (x y : Bytes)
    → is_empty x ≡ false
    → (if b then x else y) ≡ []
    → (b ≡ false) × (y ≡ [])
passed true [] y e h = cc
passed true (c ∷ x) y e h = cc
passed false x y e h = (refl, h)

and_or_false : (a b c : Bool) → (a && (b || c)) ≡ false → (a && c) ≡ false
and_or_false true true c h = cc
and_or_false true false c h = h
and_or_false false b c h = refl

-- What an accepted address of the version 4 is, without an allow-list: of an allowed scheme, and in
-- none of the ranges that the policy blocks.
pub reject-accepts :
    (policy : UrlPolicy) (u : Url) (a b c d : ℕ)
    → a < 256
    → b < 256
    → c < 256
    → d < 256
    → u.host ≡ dotted a b c d
    → policy.allowed_hosts ≡ []
    → reject policy u ≡ []
    → (any (λ scheme. eq_bytes scheme u.scheme) policy.allowed_schemes ≡ true)
      × ((policy.block_loopback && a == 127) ≡ false)
      × ((policy.block_link_local && a == 169 && b == 254) ≡ false)
      × ((policy.block_private_networks
            && (a == 10 || a == 172 && (leb 16 b && leb b 31) || a == 192 && b == 168))
          ≡ false)
unfolding reject
reject-accepts policy u a b c d ha hb hc hd host none_listed accepted =
    let literal : ipv4_literal u.host ≡ some (a ∷ b ∷ c ∷ d ∷ []) =
      rw host (ipv4_literal-dotted a b c d ha hb hc hd) in
    let body = rw (none_listed, literal) at accepted in
    let scheme =
      passed (not (any (λ s. eq_bytes s u.scheme) policy.allowed_schemes)) _ _ refl body in
    let loopback =
      passed
        (policy.block_loopback
          && (equals_ignore_case u.host (codes "localhost")
              || eq_bytes u.host (codes "::1")
              || a == 127))
        _ _ refl scheme.1 in
    let link_local = passed (policy.block_link_local && a == 169 && b == 254) _ _ refl loopback.1 in
    let fe80 =
      passed (policy.block_link_local && starts_with u.host (codes "fe80:")) _ _ refl
        link_local.1 in
    let private =
      passed
        (policy.block_private_networks
          && (a == 10 || a == 172 && (leb 16 b && leb b 31) || a == 192 && b == 168))
        _ _ refl fe80.1 in
    (
      not-false _ scheme.0,
      and_or_false policy.block_loopback _ (a == 127) loopback.0,
      link_local.0,
      private.0,
    )
