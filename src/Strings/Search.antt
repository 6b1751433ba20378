-- ===== src/Strings/Search.antt =====
-- Prefixes, suffixes and substrings (src/core/StringUtils.cpp), with `std::string::find`, and the
-- names that isSensitiveName takes for secret ones.
use testforge.Base.{
  codes, List, any, ltb, leb, ◌==◌, if◌then◌else◌, Bool-cases, length, take, drop, is_empty,
  eq_bytes, Bytes, ℕ, zero, suc, ◌-◌, ◌≤◌, ◌<◌, ◌≡◌, refl, sym, ap, ◌∙◌, ◌↔◌, inl, inr, Bool, true,
  false, ◌&&◌, Option, none, some, [], ◌∷◌, ◌++◌, map, arith, dec_lt,
}
use testforge.Strings.Case.{
  to_lower, lower_ascii, equals_ignore_case, equals_ignore_case-to_lower, length-map,
}

unfoldable pub starts_with : Bytes → Bytes → Bool
unfolding eq_bytes
starts_with text prefix =
    leb (length prefix) (length text) && eq_bytes (take (length prefix) text) prefix

unfoldable pub ends_with : Bytes → Bytes → Bool
unfolding eq_bytes
ends_with text suffix =
    leb (length suffix) (length text) && eq_bytes (drop (length text - length suffix) text) suffix

-- `std::string_view::find`: the first position at which the needle stands.
unfoldable pub is_prefix : Bytes → Bytes → Bool
is_prefix [] t = true
is_prefix (x ∷ n) [] = false
is_prefix (x ∷ n) (y ∷ t) = x == y && is_prefix n t

unfoldable pub find : Bytes → Bytes → Option ℕ
unfolding is_prefix
find n [] = if is_empty n then some 0 else none
find n (c ∷ t) =
    let later = find n t in
    if is_prefix n (c ∷ t) then some 0 else elim later [ none ↦ none | some i ↦ some (suc i) ]

abbrev pub is_some {ℓ} : {A : Type ℓ} → Option A → Bool
is_some none = false
is_some (some a) = true

unfoldable pub contains : Bytes → Bytes → Bool
unfolding find
contains text needle = is_some (find needle text)

-- The loop of `containsIgnoreCase`: the windows at the first `k` positions.
unfoldable pub scan_windows : ℕ → Bytes → Bytes → Bool
unfolding equals_ignore_case
scan_windows zero text needle = false
scan_windows (suc k) text needle =
    let rest = scan_windows k (drop 1 text) needle in
    if equals_ignore_case (take (length needle) text) needle then true else rest

unfoldable pub contains_ignore_case : Bytes → Bytes → Bool
unfolding scan_windows
contains_ignore_case text needle =
    if is_empty needle
    then true
    else if ltb (length text) (length needle)
    then false
    else scan_windows (suc (length text - length needle)) text needle

abbrev secret_markers : List Bytes
secret_markers =
    codes "password"
    ∷ codes "passwd"
    ∷ codes "secret"
    ∷ codes "token"
    ∷ codes "api_key"
    ∷ codes "apikey"
    ∷ codes "auth"
    ∷ codes "cookie"
    ∷ codes "session"
    ∷ codes "credential"
    ∷ codes "private"
    ∷ codes "signature"
    ∷ []

unfoldable pub is_sensitive_name : Bytes → Bool
unfolding contains_ignore_case any
is_sensitive_name name = any (λ marker. contains_ignore_case name marker) secret_markers

-- An occurrence of the needle: what stands before it and behind it.
abbrev pub Occurs : Bytes → Bytes → Type 0
Occurs needle text = (before : Bytes) × (after : Bytes) × (text ≡ before ++ needle ++ after)

is_prefix_sound : (n t : Bytes) → is_prefix n t ≡ true → (after : Bytes) × (t ≡ n ++ after)
unfolding is_prefix
is_prefix_sound [] t h = (t, refl)
is_prefix_sound (x ∷ n) [] h = cc
is_prefix_sound (x ∷ n) (y ∷ t) h =
    let (a, e) = is_prefix_sound n t (ground arith) in (a, ground arith)

is_prefix-append : (n after : Bytes) → is_prefix n (n ++ after) ≡ true
unfolding is_prefix
is_prefix-append [] after = refl
is_prefix-append (x ∷ n) after = ground (arith, is_prefix-append n after)

-- A text that is found stands in the other one, and a text that stands in it is found.
contains-Occurs : (n t : Bytes) → contains t n ≡ true → Occurs n t
unfolding contains
contains-Occurs [] t h = ([], t, refl)
contains-Occurs (x ∷ n) [] h = cc
contains-Occurs (x ∷ n) (c ∷ t) h = elim (Bool-cases (is_prefix (x ∷ n) (c ∷ t))) [
  | inl e ↦ let (after, q) = is_prefix_sound (x ∷ n) (c ∷ t) e in ([], after, q)
  | inr e ↦
      let (before, after, q) = contains-Occurs (x ∷ n) t (ground arith) in
      (c ∷ before, after, ap (◌∷◌ c) q)
]

Occurs-contains : (n before after : Bytes) → contains (before ++ n ++ after) n ≡ true
unfolding contains
Occurs-contains [] [] [] = refl
Occurs-contains [] [] (c ∷ after) = unfold is_prefix in refl
Occurs-contains (x ∷ n) [] after = ground (arith, is_prefix-append (x ∷ n) after)
Occurs-contains n (c ∷ before) after = ground (arith, Occurs-contains n before after)

-- `find` finds a text exactly where it occurs.
pub contains_iff : (n t : Bytes) → (contains t n ≡ true) ↔ Occurs n t
contains_iff n t =
    (contains-Occurs n t, λ (before, after, e). rw e (Occurs-contains n before after))

is_prefix-window :
    (n t : Bytes)
    → eq_bytes (map lower_ascii (take (length n) t)) (map lower_ascii n)
      ≡ is_prefix (map lower_ascii n) (map lower_ascii t)
unfolding is_prefix eq_bytes
is_prefix-window [] t = refl
is_prefix-window (x ∷ n) [] = refl
is_prefix-window (x ∷ n) (y ∷ t) = ground (arith, is_prefix-window n t)

equals-window :
    (n t : Bytes) → equals_ignore_case (take (length n) t) n ≡ is_prefix (to_lower n) (to_lower t)
unfolding to_lower
equals-window n t = equals_ignore_case-to_lower (take (length n) t) n ∙ is_prefix-window n t

is_prefix-longer : (n t : Bytes) → length t < length n → is_prefix n t ≡ false
unfolding is_prefix
is_prefix-longer [] t h = absurd (omega arith)
is_prefix-longer (x ∷ n) [] h = refl
is_prefix-longer (x ∷ n) (y ∷ t) h = ground (arith, is_prefix-longer n t)

contains-longer : (n t : Bytes) → length t < length n → contains t n ≡ false
unfolding contains
contains-longer [] [] h = absurd (omega arith)
contains-longer (x ∷ n) [] h = refl
contains-longer n (c ∷ t) h = ground (arith, is_prefix-longer n (c ∷ t), contains-longer n t)

contains_step :
    (n : Bytes) (c : ℕ) (t : Bytes)
    → contains (c ∷ t) n ≡ (if is_prefix n (c ∷ t) then true else contains t n)
unfolding contains
contains_step n c t = ground arith

scan_windows-contains :
    (n t : Bytes)
    → 0 < length n
    → length n ≤ length t
    → scan_windows (suc (length t - length n)) t n ≡ contains (to_lower t) (to_lower n)
unfolding scan_windows to_lower
scan_windows-contains n [] h k = absurd (omega arith)
scan_windows-contains n (c ∷ t) h k = elim (dec_lt (length n) (suc (length t))) [
  | yes fits ↦
      let e : suc (length t) - length n ≡ suc (length t - length n) = omega arith in
      rw (e, equals-window n (c ∷ t), contains_step (to_lower n) (lower_ascii c) (to_lower t))
        (ground (arith, scan_windows-contains n t h (omega arith)))
  | no exact ↦
      let e : suc (length t) - length n ≡ 0 = omega arith in
      rw (e, equals-window n (c ∷ t), contains_step (to_lower n) (lower_ascii c) (to_lower t))
        (ground (
          arith,
          contains-longer (to_lower n) (to_lower t),
          length-map lower_ascii n,
          length-map lower_ascii t,
        ))
]

contains_nil : (t : Bytes) → contains t [] ≡ true
unfolding contains is_prefix
contains_nil [] = refl
contains_nil (c ∷ t) = refl

-- Searching without case is searching the lower-case forms; the early returns and the bound of the
-- loop lose no position.
pub contains_ignore_case-to_lower :
    (text needle : Bytes)
    → contains_ignore_case text needle ≡ contains (to_lower text) (to_lower needle)
unfolding contains_ignore_case to_lower
contains_ignore_case-to_lower text [] = sym (contains_nil (to_lower text))
contains_ignore_case-to_lower text (x ∷ n) = ground (
  arith,
  contains-longer (to_lower (x ∷ n)) (to_lower text),
  length-map lower_ascii text,
  length-map lower_ascii (x ∷ n),
  scan_windows-contains (x ∷ n) text,
)
