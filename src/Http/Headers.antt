-- ===== src/Http/Headers.antt =====
-- What is found among the headers after one is set (src/net/HttpTypes.cpp).
use testforge.Base.{
  eq_bytes, ap, eq_bytes_self, append-nil, Bool-cases, inr, inl, false, ◌∙◌, if◌then◌else◌,
  eq_bytes→eq, sym, refl, [], true, ◌++◌, ◌∷◌, ◌≡◌, Bytes, arith,
}
use testforge.Http.{
  add_header, set_header, remove_header, HttpHeaders, equals_ignore_case, get_all_headers,
}
use testforge.Strings.Case.{equals_ignore_case-to_lower, to_lower}

same_left :
    (a b c : Bytes)
    → equals_ignore_case a b ≡ true
    → equals_ignore_case a c ≡ equals_ignore_case b c
same_left a b c e =
    let lower : to_lower a ≡ to_lower b =
      eq_bytes→eq (to_lower a) (to_lower b) (sym (equals_ignore_case-to_lower a b) ∙ e) in
    equals_ignore_case-to_lower a c
    ∙ (ap (λ t. eq_bytes t (to_lower c)) lower ∙ sym (equals_ignore_case-to_lower b c))

same_flip : (a b : Bytes) → equals_ignore_case a b ≡ true → equals_ignore_case b a ≡ true
same_flip a b e =
    sym (same_left a b a e) ∙ (equals_ignore_case-to_lower a a ∙ eq_bytes_self (to_lower a))

get_all_headers-append :
    (name : Bytes) (g h : HttpHeaders)
    → get_all_headers name (g ++ h) ≡ get_all_headers name g ++ get_all_headers name h
unfolding get_all_headers
get_all_headers-append name [] h = refl
get_all_headers-append name ((k, v) ∷ g) h = ground (arith, get_all_headers-append name g h)

-- What is left under a name when another, or the same in another case, is removed.
get_all_headers-remove_header :
    (name other : Bytes) (h : HttpHeaders)
    → get_all_headers other (remove_header name h)
      ≡ (if equals_ignore_case name other then [] else get_all_headers other h)
unfolding get_all_headers remove_header
get_all_headers-remove_header name other [] = ground arith
get_all_headers-remove_header name other ((k, v) ∷ h) =
    let rest = get_all_headers-remove_header name other h in
    elim (Bool-cases (equals_ignore_case k name)) [
      | inl e ↦ rw (e) (ground (arith, rest, same_left k name other e))
      | inr e ↦ elim (Bool-cases (equals_ignore_case k other)) [
        | inl d ↦ rw (e, get_all_headers, d) (ground (arith, rest, apart e d))
        | inr d ↦ rw (e, get_all_headers, d) rest
      ]
    ]
  where
    apart :
        equals_ignore_case k name ≡ false
        → equals_ignore_case k other ≡ true
        → equals_ignore_case name other ≡ false
    apart e d = elim (Bool-cases (equals_ignore_case name other)) [
      | inl f ↦ cc (e, same_left k other name d, same_flip name other f)
      | inr f ↦ f
    ]

get_all_headers-one :
    (other name v : Bytes)
    → get_all_headers other ((name, v) ∷ [])
      ≡ (if equals_ignore_case name other then v ∷ [] else [])
unfolding get_all_headers
get_all_headers-one other name v = refl

-- After a header is set its value is the only one under its name, in any case, and under every other
-- name the values are those of before.
pub get_all_headers-set_header :
    (name v other : Bytes) (h : HttpHeaders)
    → get_all_headers other (set_header name v h)
      ≡ (if equals_ignore_case name other then v ∷ [] else get_all_headers other h)
unfolding set_header add_header
get_all_headers-set_header name v other h =
    get_all_headers-append other (remove_header name h) ((name, v) ∷ [])
    ∙ rw (get_all_headers-remove_header name other h, get_all_headers-one other name v)
        (elim (Bool-cases (equals_ignore_case name other)) [
          | inl e ↦ rw e refl
          | inr e ↦ rw e (append-nil (get_all_headers other h))
        ])
