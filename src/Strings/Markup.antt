-- ===== src/Strings/Markup.antt =====
-- Escapes for markup (src/core/StringUtils.cpp: escapeXml, escapeHtml).
use testforge.Base.{
  ==_iff, sym, ◌∙◌, ◌<◌, ◌+◌, ap, length, ◌||◌, leb, take, All-append, not, if_cases, ltb, All,
  codes, drop, Bool, suc, zero, refl, [], true, ◌++◌, ◌∷◌, ◌&&◌, ◌≡◌, if◌then◌else◌, ◌==◌, Bytes,
  eq_bytes, ℕ, arith,
}

unfoldable escape_xml_byte : ℕ → Bytes
escape_xml_byte c =
    if c == b'&'
    then codes "&amp;"
    else if c == b'<'
    then codes "&lt;"
    else if c == b'>'
    then codes "&gt;"
    else if c == b'"'
    then codes "&quot;"
    else if c == b'\''
    then codes "&apos;"
    else if ltb c 0x20 && not (c == 10) && not (c == 13) && not (c == 9)
    then b' ' ∷ []
    else c ∷ []

unfoldable pub escape_xml : Bytes → Bytes
unfolding escape_xml_byte
escape_xml [] = []
escape_xml (c ∷ s) = escape_xml_byte c ++ escape_xml s

unfoldable escape_html_byte : ℕ → Bytes
escape_html_byte c =
    if c == b'&'
    then codes "&amp;"
    else if c == b'<'
    then codes "&lt;"
    else if c == b'>'
    then codes "&gt;"
    else if c == b'"'
    then codes "&quot;"
    else if c == b'\''
    then codes "&#39;"
    else if c == b'/'
    then codes "&#47;"
    else c ∷ []

unfoldable pub escape_html : Bytes → Bytes
unfolding escape_html_byte
escape_html [] = []
escape_html (c ∷ s) = escape_html_byte c ++ escape_html s

-- A byte that cannot end a text or an attribute of XML 1.0 and that its documents may hold.
abbrev pub is_xml_safe : ℕ → Bool
is_xml_safe c =
    not (c == b'<')
    && not (c == b'>')
    && not (c == b'"')
    && not (c == b'\'')
    && (leb 0x20 c || c == 10 || c == 13 || c == 9)

abbrev pub is_html_safe : ℕ → Bool
is_html_safe c =
    not (c == b'<') && not (c == b'>') && not (c == b'"') && not (c == b'\'') && not (c == b'/')

escape_xml_byte-safe : (c : ℕ) → All (λ d. is_xml_safe d ≡ true) (escape_xml_byte c)
unfolding escape_xml_byte
escape_xml_byte-safe c =
    let P : Bytes → Type 0 = λ s. All (λ d. is_xml_safe d ≡ true) s in
    if_cases P (c == b'&') _ _ (λ _. (refl, (refl, (refl, (refl, (refl, tt))))))
      λ n₁.
        if_cases P (c == b'<') _ _ (λ _. (refl, (refl, (refl, (refl, tt)))))
          λ n₂.
            if_cases P (c == b'>') _ _ (λ _. (refl, (refl, (refl, (refl, tt)))))
              λ n₃.
                if_cases P (c == b'"') _ _ (λ _. (refl, (refl, (refl, (refl, (refl, (refl, tt)))))))
                  λ n₄.
                    if_cases P (c == b'\'') _ _
                      (λ _. (refl, (refl, (refl, (refl, (refl, (refl, tt)))))))
                      λ n₅.
                        if_cases P (ltb c 0x20 && not (c == 10) && not (c == 13) && not (c == 9)) _
                          _ (λ _. (refl, tt)) (λ n₆. (ground arith, tt))

escape_html_byte-safe : (c : ℕ) → All (λ d. is_html_safe d ≡ true) (escape_html_byte c)
unfolding escape_html_byte
escape_html_byte-safe c =
    let P : Bytes → Type 0 = λ s. All (λ d. is_html_safe d ≡ true) s in
    if_cases P (c == b'&') _ _ (λ _. (refl, (refl, (refl, (refl, (refl, tt))))))
      λ n₁.
        if_cases P (c == b'<') _ _ (λ _. (refl, (refl, (refl, (refl, tt)))))
          λ n₂.
            if_cases P (c == b'>') _ _ (λ _. (refl, (refl, (refl, (refl, tt)))))
              λ n₃.
                if_cases P (c == b'"') _ _ (λ _. (refl, (refl, (refl, (refl, (refl, (refl, tt)))))))
                  λ n₄.
                    if_cases P (c == b'\'') _ _ (λ _. (refl, (refl, (refl, (refl, (refl, tt))))))
                      λ n₅.
                        if_cases P (c == b'/') _ _ (λ _. (refl, (refl, (refl, (refl, (refl, tt))))))
                          λ n₆. (ground arith, tt)

escape_xml-safe : (s : Bytes) → All (λ d. is_xml_safe d ≡ true) (escape_xml s)
unfolding escape_xml
escape_xml-safe [] = tt
escape_xml-safe (c ∷ s) =
    All-append (λ d. is_xml_safe d ≡ true) (escape_xml_byte c) (escape_xml s)
      (escape_xml_byte-safe c) (escape_xml-safe s)

-- What a browser makes of the entities that `escapeHtml` writes.
unfoldable unescape : ℕ → Bytes → Bytes
unescape zero t = []
unescape (suc fuel) [] = []
unescape (suc fuel) (c ∷ t) =
    let behind : ℕ → ℕ → Bytes = λ byte n. byte ∷ unescape fuel (drop n t) in
    if not (c == b'&')
    then c ∷ unescape fuel t
    else if eq_bytes (take 4 t) (codes "amp;")
    then behind b'&' 4
    else if eq_bytes (take 3 t) (codes "lt;")
    then behind b'<' 3
    else if eq_bytes (take 3 t) (codes "gt;")
    then behind b'>' 3
    else if eq_bytes (take 5 t) (codes "quot;")
    then behind b'"' 5
    else if eq_bytes (take 4 t) (codes "#39;")
    then behind b'\'' 4
    else if eq_bytes (take 4 t) (codes "#47;")
    then behind b'/' 4
    else c ∷ unescape fuel t

unescape-byte :
    (c fuel : ℕ) (t : Bytes) → unescape (suc fuel) (escape_html_byte c ++ t) ≡ c ∷ unescape fuel t
unfolding unescape escape_html_byte eq_bytes
unescape-byte c fuel t =
    let P : Bytes → Type 0 = λ s. unescape (suc fuel) (s ++ t) ≡ c ∷ unescape fuel t in
    let same : (v : ℕ) → (c == v) ≡ true → v ∷ unescape fuel t ≡ c ∷ unescape fuel t =
      λ v e. ap (λ d. d ∷ unescape fuel t) (sym ((==_iff c v).0 e)) in
    if_cases P (c == b'&') _ _ (same b'&') λ n. if_cases P (c == b'<') _ _ (same b'<') λ _.
      if_cases P (c == b'>') _ _ (same b'>') λ _. if_cases P (c == b'"') _ _ (same b'"') λ _.
        if_cases P (c == b'\'') _ _ (same b'\'')
          λ _. if_cases P (c == b'/') _ _ (same b'/') λ _. rw n refl

unescape-escape_html : (s : Bytes) (fuel : ℕ) → length s < fuel → unescape fuel (escape_html s) ≡ s
unfolding escape_html unescape
unescape-escape_html s zero h = absurd (omega arith)
unescape-escape_html [] (suc fuel) h = refl
unescape-escape_html (c ∷ s) (suc fuel) h =
    unescape-byte c fuel (escape_html s)
    ∙ ap (λ t. c ∷ t) (unescape-escape_html s fuel (omega arith))

-- Two texts with one escaped form are one text: nothing is lost on a page.
pub escape_html-injective : (s t : Bytes) → escape_html s ≡ escape_html t → s ≡ t
escape_html-injective s t h =
    let fuel = suc (length s + length t) in
    sym (unescape-escape_html s fuel (omega arith))
    ∙ (ap (unescape fuel) h ∙ unescape-escape_html t fuel (omega arith))

escape_html-safe : (s : Bytes) → All (λ d. is_html_safe d ≡ true) (escape_html s)
unfolding escape_html
escape_html-safe [] = tt
escape_html-safe (c ∷ s) =
    All-append (λ d. is_html_safe d ≡ true) (escape_html_byte c) (escape_html s)
      (escape_html_byte-safe c) (escape_html-safe s)

-- Whatever the text is, its escaped forms can end no element and no attribute, and the one for XML
-- holds no control character that XML 1.0 forbids.
pub escapes_safe :
    (s : Bytes)
    → All (λ d. is_xml_safe d ≡ true) (escape_xml s)
      × All (λ d. is_html_safe d ≡ true) (escape_html s)
escapes_safe s = (escape_xml-safe s, escape_html-safe s)
