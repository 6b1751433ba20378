-- ===== src/Specs/Passing/Texts.antt =====
-- When names and endpoints are safe (src/ai/SpecValidator.cpp: isSafeName, isSafeEndpoint).
use testforge.Base.{
  Bool-cases, length, codes, eq_bytes, ltb, is_empty, All, inr, inl, refl, some, none, [], false,
  true, ◌++◌, ◌∷◌, ◌↔◌, ◌≢◌, ◌≡◌, ◌<◌, ◌≤◌, Bytes, ℕ, Option, arith,
}
use testforge.Specs.Safety.{
  url_schemes, is_control, is_name_character, unsafe_endpoint, names_scheme, unsafe_name,
  bad_character, starts_with_slash, starts_with_dot, has_control_character,
}
use testforge.Strings.Search.{contains_iff, contains, Occurs, starts_with}
use testforge.Specs.Permitted.{IsSafeEndpoint, IsSafeName, StartsWith, IsPrintable}
use testforge.Specs.Passing.{neither, last_if, confirmed, unless_if, any-All, refuted}
use testforge.Strings.Case.{to_lower}

pub some_bytes : (s : Bytes) → (is_empty s ≡ false) ↔ (0 < length s)
some_bytes [] = (λ h. absurd (cc), λ h. absurd (omega arith))
some_bytes (c ∷ s) = (λ _. omega arith, λ _. refl)

pub not_above : (limit n : ℕ) → (ltb limit n ≡ false) ↔ (n ≤ limit)
not_above limit n = (λ h. ground arith, λ h. ground arith)

pub has_control_character_iff : (s : Bytes) → (has_control_character s ≡ false) ↔ IsPrintable s
unfolding has_control_character
has_control_character_iff = any-All is_control is_control_iff
  where
    is_control_iff : (c : ℕ) → (is_control c ≡ false) ↔ ((0x20 ≤ c) × (c ≢ 0x7F))
    is_control_iff c = unfold is_control in (ground arith)

starts_with-append : (p rest : Bytes) → starts_with (p ++ rest) p ≡ true
unfolding starts_with eq_bytes
starts_with-append [] rest = ground arith
starts_with-append (c ∷ p) rest = ground (arith, starts_with-append p rest)

starts_with_sound : (p t : Bytes) → starts_with t p ≡ true → StartsWith p t
unfolding starts_with eq_bytes
starts_with_sound [] t h = (t, refl)
starts_with_sound (c ∷ p) [] h = absurd (ground arith)
starts_with_sound (c ∷ p) (d ∷ t) h =
    let (rest, e) = starts_with_sound p t (ground arith) in (rest, ground arith)

starts_with_iff : (p t : Bytes) → (starts_with t p ≡ true) ↔ StartsWith p t
starts_with_iff p t = (starts_with_sound p t, λ (rest, e). rw e (starts_with-append p rest))

starts_with_dot_iff : (t : Bytes) → (starts_with_dot t ≡ true) ↔ StartsWith (codes ".") t
unfolding starts_with_dot
starts_with_dot_iff [] = (λ h. cc, λ (rest, e). cc)
starts_with_dot_iff (c ∷ t) = (λ h. (t, ground arith), λ (rest, e). ground arith)

starts_with_slash_iff : (t : Bytes) → (starts_with_slash t ≡ true) ↔ StartsWith (codes "/") t
unfolding starts_with_slash
starts_with_slash_iff [] = (λ h. cc, λ (rest, e). cc)
starts_with_slash_iff (c ∷ t) = (λ h. (t, ground arith), λ (rest, e). ground arith)

bad_character_iff : (s : Bytes) → (bad_character s ≡ none) ↔ All (λ c. is_name_character c ≡ true) s
unfolding bad_character
bad_character_iff [] = (λ _. tt, λ _. refl)
bad_character_iff (c ∷ s) = elim (Bool-cases (is_name_character c)) [
  | inl e ↦
      let later = bad_character_iff s in (λ h. (e, later.0 (rw e at h)), λ h. rw e (later.1 h.1))
  | inr e ↦ (λ h. absurd (cc (rw e at h)), λ h. absurd (cc (h.0, e)))
]

-- The reason of a loop, and behind it a chain of tests.
pub then_chain :
    {P Q : Type 0} (first later : Option Bytes)
    → (first ≡ none) ↔ P
    → (later ≡ none) ↔ Q
    → ((elim first as (λ _. Option Bytes) [ some reason ↦ some reason | none ↦ later ]) ≡ none)
      ↔ (P × Q)
then_chain none later p q = (λ h. (p.0 refl, q.0 h), λ h. q.1 h.1)
then_chain (some reason) later p q = (λ h. absurd (cc), λ h. absurd (cc (p.1 h.0)))

pub unsafe_name_iff : (name : Bytes) → (unsafe_name name ≡ none) ↔ IsSafeName name
unfolding unsafe_name
unsafe_name_iff name =
    let dots = refuted _ (contains_iff (codes "..") name) in
    let dot = refuted _ (starts_with_dot_iff name) in
    unless_if _ _ _ (some_bytes name) (
      unless_if _ _ _ (not_above 80 (length name))
        (then_chain _ _ (bad_character_iff name) (last_if _ _ (neither _ _ dot dots))))

names_scheme_iff :
    (e : Bytes)
    → (names_scheme e ≡ false) ↔ All (λ scheme. ¬ Occurs scheme (to_lower e)) url_schemes
unfolding names_scheme
names_scheme_iff e =
    any-All (λ scheme. contains (to_lower e) scheme)
      (λ scheme. refuted _ (contains_iff scheme (to_lower e))) url_schemes

pub unsafe_endpoint_iff : (e : Bytes) → (unsafe_endpoint e ≡ none) ↔ IsSafeEndpoint e
unfolding unsafe_endpoint
unsafe_endpoint_iff e =
    let absent : (n : Bytes) → (contains e n ≡ false) ↔ (¬ Occurs n e) =
      λ n. refuted _ (contains_iff n e) in
    unless_if _ _ _ (some_bytes e) (
      unless_if _ _ _ (not_above 512 (length e)) (
        unless_if _ _ _ (has_control_character_iff e) (
          unless_if _ _ _ (confirmed _ (starts_with_slash_iff e)) (
            unless_if _ _ _ (refuted _ (starts_with_iff (codes "//") e)) (
              unless_if _ _ _ (absent (codes ".."))
                (unless_if _ _ _ (names_scheme_iff e) (last_if _ _ (absent (codes "@")))))))))
