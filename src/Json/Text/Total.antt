-- ===== src/Json/Text/Total.antt =====
-- The parser always ends, and what it returns is a document (src/core/Json.cpp: class Parser).
use testforge.Base.{
  subst, ◌≢◌, ◌+◌, codes, is_empty, ltb, false, ◌*◌, ◌==◌, take, eq_bytes, if_cases, drop, length,
  Bytes, ℕ, suc, zero, [], true, ◌∷◌, ◌≡◌, ◌<◌, ◌≤◌, arith,
}
use testforge.Json.Text.Number.{CLibrary}
use testforge.Json.Text.Parser.{
  out_of_fuel, parsed, parse, to_parsed, parse_document, parse_members, parse_object, parse_items,
  parse_array, parse_value, skip_whitespace, consume_literal, peek_is, ParseLimits,
}
use testforge.Json.{boolean, null, end, member, Items, Value, Members, set_member}
use testforge.Json.Text.Document.{DocumentItems, DocumentMembers, Document}
use testforge.Json.Names.{Names-set_member, Names}
use testforge.Json.Text.Outcome.{
  Ensures-weaken, Ensures-and_then, Outcome, rejected, holds, Ensures-if, Ensures,
}
use testforge.Json.Text.Literal.{expect}
use testforge.Json.Text.Shrinking.{parse_string-Shrinks, Shrinks}
use testforge.Json.Text.Scanning.{parse_number-Ensures}

module _ (libc : CLibrary) (limits : ParseLimits) where
  abbrev Sound : ℕ → Value → Type 0
  Sound = Document (λ _. Unit) limits

  abbrev SoundItems : ℕ → Items → Type 0
  SoundItems = DocumentItems (λ _. Unit) limits

  abbrev SoundMembers : ℕ → Members → Type 0
  SoundMembers depth ms = Names ms × DocumentMembers (λ _. Unit) limits depth ms

  length-skip_whitespace : (s : Bytes) → length (skip_whitespace s) ≤ length s
  unfolding skip_whitespace
  length-skip_whitespace [] = omega arith
  length-skip_whitespace (c ∷ s) = ground (arith, length-skip_whitespace s)

  length-drop : (c : ℕ) (s : Bytes) → peek_is c s ≡ true → length (drop 1 s) < length s
  unfolding peek_is
  length-drop c [] h = cc
  length-drop c (d ∷ s) h = omega arith

  length-drop_some : (n : ℕ) (s : Bytes) → length (drop n s) ≤ length s
  length-drop_some zero s = omega arith
  length-drop_some (suc n) [] = omega arith
  length-drop_some (suc n) (c ∷ s) = omega (arith, length-drop_some n s)

  consume_literal-Ensures :
      (c : ℕ) (literal s : Bytes) (v : Value) (depth : ℕ)
      → peek_is c s ≡ true
      → Sound depth v
      → Ensures
          (λ w rest. (length rest < length s) × Sound depth w)
          (consume_literal (c ∷ literal) v s)
  unfolding consume_literal
  consume_literal-Ensures c literal [] v depth h sound = unfold peek_is in cc
  consume_literal-Ensures c literal (d ∷ s) v depth h sound =
      Ensures-if (eq_bytes (take (length (c ∷ literal)) (d ∷ s)) (c ∷ literal))
        (λ _. holds (omega (arith, length-drop_some (length literal) s), sound)) (λ _. rejected)

  DocumentMembers-set_member :
      (depth : ℕ) (k : Bytes) (v : Value) (ms : Members)
      → Sound depth v
      → DocumentMembers (λ _. Unit) limits depth ms
      → DocumentMembers (λ _. Unit) limits depth (set_member k v ms)
  unfolding set_member Document
  DocumentMembers-set_member depth k v end h hs = (h, tt)
  DocumentMembers-set_member depth k v (member l w ms) h hs =
      if_cases (DocumentMembers (λ _. Unit) limits depth) (eq_bytes l k) _ _ (λ _. (h, hs.1))
        (λ _. (hs.0, DocumentMembers-set_member depth k v ms h hs.1))

  expect-Shrinks : (c : ℕ) (s : Bytes) → Shrinks s (expect c s)
  unfolding expect
  expect-Shrinks c [] = rejected
  expect-Shrinks c (d ∷ s) = Ensures-if (d == c) (λ _. holds (omega arith)) (λ _. rejected)

  abbrev Within {ℓ} : {A : Type ℓ} → (A → Type 0) → Bytes → Outcome A → Type ℓ
  Within P s r = Ensures (λ a rest. (length rest < length s) × P a) r

  mutual
    unfolding parse_value Document

    parse_value-Within :
        (fuel depth : ℕ) (s : Bytes)
        → 3 * length s < fuel
        → Within (Sound depth) s (parse_value libc limits fuel depth s)
    parse_value-Within zero depth s h = absurd (omega arith)
    parse_value-Within (suc fuel) depth s h =
        Ensures-if (ltb limits.max_depth depth) (λ _. rejected)
          λ shallow.
            let d : depth ≤ limits.max_depth = ground arith in
            Ensures-if (is_empty s) (λ _. rejected)
              λ nonempty.
                Ensures-if (peek_is b'n' s)
                  (λ p. consume_literal-Ensures b'n' (codes "ull") s null depth p d)
                  λ _.
                    Ensures-if (peek_is b't' s)
                      (λ p. consume_literal-Ensures b't' (codes "rue") s (boolean true) depth p d)
                      λ _.
                        Ensures-if (peek_is b'f' s)
                          (λ p.
                            consume_literal-Ensures b'f' (codes "alse") s (boolean false) depth p d)
                          λ _.
                            Ensures-if (peek_is b'"' s)
                              (λ _.
                                Ensures-and_then (parse_string-Shrinks s) λ t rest k. holds (k, d))
                              λ _.
                                Ensures-if (peek_is b'[' s)
                                  (λ p.
                                    Ensures-and_then
                                      (parse_array-Within fuel depth s p (omega arith))
                                      λ xs rest k. holds (k.0, (d, k.1)))
                                  λ _.
                                    Ensures-if (peek_is b'{' s)
                                      (λ p.
                                        Ensures-and_then
                                          (parse_object-Within fuel depth s p (omega arith))
                                          λ ms rest k. holds (k.0, (d, k.1.0, k.1.1)))
                                      λ _. parse_number-Ensures libc limits depth d s

    parse_array-Within :
        (fuel depth : ℕ) (s : Bytes)
        → peek_is b'[' s ≡ true
        → 3 * length s ≤ fuel
        → Within (SoundItems (suc depth)) s (parse_array libc limits fuel depth s)
    parse_array-Within zero depth s p h = absurd (omega (arith, length-drop b'[' s p))
    parse_array-Within (suc fuel) depth s p h =
        let inside = skip_whitespace (drop 1 s) in
        let shorter = length-skip_whitespace (drop 1 s) in
        let first = length-drop b'[' s p in
        Ensures-if (peek_is b']' inside) (λ q. holds (omega (arith, length-drop b']' inside q), tt))
          (λ _.
            Ensures-weaken (parse_items-Within fuel depth inside (omega arith))
              λ xs rest k. (omega (arith, k.0), k.1))

    parse_items-Within :
        (fuel depth : ℕ) (s : Bytes)
        → 3 * length s + 1 < fuel
        → Within (SoundItems (suc depth)) s (parse_items libc limits fuel depth s)
    parse_items-Within zero depth s h = absurd (omega arith)
    parse_items-Within (suc fuel) depth s h =
        let start = skip_whitespace s in
        let shorter = length-skip_whitespace s in
        Ensures-and_then (parse_value-Within fuel (suc depth) start (omega arith)) λ v rest k.
          let behind = skip_whitespace rest in
          let left = length-skip_whitespace rest in
          Ensures-if (peek_is b',' behind)
            (λ q.
              let less = length-drop b',' behind q in
              Ensures-and_then (parse_items-Within fuel depth (drop 1 behind) (omega (arith, k.0)))
                λ xs more l. holds (omega (arith, k.0, l.0), (k.1, l.1)))
            λ _.
              Ensures-if (peek_is b']' behind)
                (λ q. holds (omega (arith, k.0, length-drop b']' behind q), (k.1, tt)))
                (λ _. rejected)

    parse_object-Within :
        (fuel depth : ℕ) (s : Bytes)
        → peek_is b'{' s ≡ true
        → 3 * length s ≤ fuel
        → Within (SoundMembers (suc depth)) s (parse_object libc limits fuel depth s)
    parse_object-Within zero depth s p h = absurd (omega (arith, length-drop b'{' s p))
    parse_object-Within (suc fuel) depth s p h =
        let inside = skip_whitespace (drop 1 s) in
        let shorter = length-skip_whitespace (drop 1 s) in
        let first = length-drop b'{' s p in
        Ensures-if (peek_is b'}' inside)
          (λ q. holds (omega (arith, length-drop b'}' inside q), (tt, tt)))
          (λ _.
            Ensures-weaken (parse_members-Within fuel depth end inside (tt, tt) (omega arith))
              λ ms rest k. (omega (arith, k.0), k.1))

    parse_members-Within :
        (fuel depth : ℕ) (before : Members) (s : Bytes)
        → SoundMembers (suc depth) before
        → 3 * length s + 1 < fuel
        → Within (SoundMembers (suc depth)) s (parse_members libc limits fuel depth before s)
    parse_members-Within zero depth before s sound h = absurd (omega arith)
    parse_members-Within (suc fuel) depth before s sound h =
        let start = skip_whitespace s in
        let shorter = length-skip_whitespace s in
        Ensures-if (peek_is b'"' start)
          (λ _. Ensures-and_then (parse_string-Shrinks start) λ key rest k.
            Ensures-and_then (expect-Shrinks b':' (skip_whitespace rest)) λ _ at_value l.
              Ensures-and_then
                (parse_value-Within fuel (suc depth) (skip_whitespace at_value)
                  (omega (arith, length-skip_whitespace rest, length-skip_whitespace at_value)))
                λ v left m.
                  let behind = skip_whitespace left in
                  let after : SoundMembers (suc depth) (set_member key v before) = (
                    Names-set_member key v before sound.0,
                    DocumentMembers-set_member (suc depth) key v before m.1 sound.1,
                  ) in
                  let less : length behind < length s = omega (
                    arith,
                    m.0,
                    length-skip_whitespace rest,
                    length-skip_whitespace at_value,
                    length-skip_whitespace left,
                  ) in
                  Ensures-if (peek_is b',' behind)
                    (λ q.
                      Ensures-weaken
                        (parse_members-Within fuel depth (set_member key v before) (drop 1 behind)
                          after (omega (arith, length-drop b',' behind q)))
                        λ ms more n. (omega (arith, n.0, length-drop b',' behind q), n.1))
                    λ _.
                      Ensures-if (peek_is b'}' behind)
                        (λ q. holds (omega (arith, length-drop b'}' behind q), after))
                        (λ _. rejected))
          (λ _. rejected)

  parse_document-Ensures :
      (fuel : ℕ) (s : Bytes)
      → 3 * length s < fuel
      → Ensures (λ v _. Sound 0 v) (parse_document libc limits fuel s)
  unfolding parse_document
  parse_document-Ensures fuel s h =
      Ensures-and_then
        (parse_value-Within fuel 0 (skip_whitespace s) (omega (arith, length-skip_whitespace s)))
        λ v rest k. Ensures-if (is_empty (skip_whitespace rest)) (λ _. holds k.1) (λ _. rejected)

  parse_ends_in :
      (text : Bytes) {r : Outcome Value}
      → Ensures (λ v _. Sound 0 v) r
      → to_parsed text r ≢ out_of_fuel
  unfolding to_parsed
  parse_ends_in text (holds h) = cc
  parse_ends_in text rejected = cc

  parsed_in :
      (text : Bytes) {r : Outcome Value} {v : Value}
      → Ensures (λ w _. Sound 0 w) r
      → to_parsed text r ≡ parsed v
      → Sound 0 v
  unfolding to_parsed
  parsed_in text (holds h) e = subst (Sound 0) (cc) h
  parsed_in text rejected e = cc

  -- Every text is either read or refused: the fuel of a parse, which grows with the text, suffices.
  pub parse_ends : (text : Bytes) → parse libc limits text ≢ out_of_fuel
  unfolding parse
  parse_ends text =
      if_cases (λ r. r ≢ out_of_fuel) (ltb limits.max_length (length text)) _ _ (λ _. cc)
        (λ _. parse_ends_in text (parse_document-Ensures _ text (omega arith)))

  -- What is read is nested no deeper than the limit, its integers fit into 64 bits, and none of its
  -- objects has a name twice, whatever the text repeats.
  pub parse-Document :
      (text : Bytes) (v : Value)
      → parse libc limits text ≡ parsed v
      → Document (λ _. Unit) limits 0 v
  unfolding parse
  parse-Document text v =
      if_cases (λ r. r ≡ parsed v → Document (λ _. Unit) limits 0 v)
        (ltb limits.max_length (length text)) _ _ (λ _ e. cc)
        (λ _ e. parsed_in text (parse_document-Ensures _ text (omega arith)) e)
