-- ===== src/Json/Text/Fields.antt =====
-- The members of an object, as `dumpInto` writes and `parseObject` reads them (src/core/Json.cpp).
use testforge.Base.{
  zero, ◌∙◌, append_assoc, length-append, length, ℕ, Bytes, ℤ, negsuc, pos, suc, refl, [], true,
  ◌++◌, ◌∷◌, ◌≡◌, ◌<◌, ◌≤◌, ◌*◌, ◌+◌, arith,
}
use testforge.Json.Text.Parser.{
  parse_members, parse_value, is_space, ParseLimits, skip_whitespace, peek_is,
}
use testforge.Json.Text.Number.{CLibrary}
use testforge.Json.Text.Escape.{quote}
use testforge.Json.Text.Printer.{
  pad_text, newline, members_comma, dump_members, dump_into, colon_space,
}
use testforge.Json.{end, set_member, member, Value, Members}
use testforge.Json.Text.Layout.{
  skip_whitespace-close_text, ends_number-close_text, parse_members-skip, dump_into-opens,
  close_text, ReadsValue,
}
use testforge.Json.Text.Outcome.{done, and_then}
use testforge.Json.Text.Document.{ReadsBack, Document, DocumentMembers}
use testforge.Json.Text.Opening.{
  skip_whitespace-newline, skip_whitespace-opens, skip_whitespace-pad_text,
}
use testforge.Json.Text.Literal.{expect}
use testforge.Json.Names.{put_all}
use testforge.Json.Text.Quoted.{parse_string-quote}
use testforge.Json.Text.Numeral.{ends_number}

peek_is-quote : (k s : Bytes) → peek_is b'"' (quote k ++ s) ≡ true
unfolding peek_is quote
peek_is-quote k s = refl

skip_whitespace-quote : (k s : Bytes) → skip_whitespace (quote k ++ s) ≡ quote k ++ s
unfolding skip_whitespace is_space quote
skip_whitespace-quote k s = refl

module _ (libc : CLibrary) (limits : ParseLimits) (indent : ℤ) where
  gap : Bytes
  gap = elim indent [ pos n ↦ b' ' ∷ [] | negsuc n ↦ [] ]

  skip_whitespace-colon :
      (s : Bytes) → skip_whitespace (colon_space indent ++ s) ≡ b':' ∷ (gap ++ s)
  unfolding skip_whitespace is_space colon_space gap
  skip_whitespace-colon s =
      elim indent
        as (λ i.
          skip_whitespace (colon_space i ++ s)
          ≡ b':' ∷ (elim i as (λ _. Bytes) [ pos n ↦ b' ' ∷ [] | negsuc n ↦ [] ] ++ s)) [
            | pos n ↦ refl
            | negsuc n ↦ refl
          ]

  skip_whitespace-gap : (s : Bytes) → skip_whitespace (gap ++ s) ≡ skip_whitespace s
  unfolding skip_whitespace is_space gap
  skip_whitespace-gap s =
      elim indent
        as (λ i.
          skip_whitespace (elim i as (λ _. Bytes) [ pos n ↦ b' ' ∷ [] | negsuc n ↦ [] ] ++ s)
          ≡ skip_whitespace s) [ pos n ↦ refl | negsuc n ↦ refl ]

  -- The text behind a member: what follows the comma, if one is there.
  abbrev behind_field : Members → ℕ → Bytes → Bytes
  behind_field ms depth rest =
      members_comma ms ++ (newline indent ++ (dump_members libc indent ms depth ++ rest))

  dump_members-split :
      (k : Bytes) (v : Value) (ms : Members) (depth : ℕ) (rest : Bytes)
      → dump_members libc indent (member k v ms) depth ++ rest
        ≡ pad_text indent (suc depth)
          ++ (quote k
              ++ (colon_space indent
                  ++ (dump_into libc indent v (suc depth) ++ behind_field ms depth rest)))
  unfolding dump_into
  dump_members-split k v ms depth rest = simp append_assoc refl

  length-dump_members :
      (k : Bytes) (v : Value) (ms : Members) (depth : ℕ)
      → length (dump_into libc indent v (suc depth))
          + length (members_comma ms)
          + length (dump_members libc indent ms depth)
        ≤ length (dump_members libc indent (member k v ms) depth)
  unfolding dump_into
  length-dump_members k v ms depth = simp length-append (omega arith)

  pub skip_whitespace-field :
      (k : Bytes) (v : Value) (ms : Members) (depth : ℕ) (rest : Bytes)
      → skip_whitespace (dump_members libc indent (member k v ms) depth ++ rest)
        ≡ quote k
          ++ (colon_space indent
              ++ (dump_into libc indent v (suc depth) ++ behind_field ms depth rest))
  skip_whitespace-field k v ms depth rest =
      rw
        (
          dump_members-split k v ms depth rest,
          skip_whitespace-pad_text indent (suc depth) (
              quote k
              ++ (colon_space indent
                  ++ (dump_into libc indent v (suc depth) ++ behind_field ms depth rest))),
        )
        (skip_whitespace-quote k _)

  module _ (fuel depth : ℕ) (s s₁ s₂ tail : Bytes) (before : Members) (k : Bytes) (v : Value) where
    parse_members-last :
        (rest : Bytes)
        → skip_whitespace s ≡ quote k ++ s₁
        → skip_whitespace s₁ ≡ b':' ∷ s₂
        → parse_value libc limits fuel (suc depth) (skip_whitespace s₂) ≡ done v tail
        → skip_whitespace tail ≡ b'}' ∷ rest
        → parse_members libc limits (suc fuel) depth before s ≡ done (set_member k v before) rest
    unfolding parse_value and_then expect peek_is
    parse_members-last rest p q e f =
        rw (p, peek_is-quote k s₁, parse_string-quote k s₁, q, e, f) refl

    parse_members-more :
        (rest : Bytes)
        → skip_whitespace s ≡ quote k ++ s₁
        → skip_whitespace s₁ ≡ b':' ∷ s₂
        → parse_value libc limits fuel (suc depth) (skip_whitespace s₂) ≡ done v tail
        → skip_whitespace tail ≡ b',' ∷ rest
        → parse_members libc limits (suc fuel) depth before s
          ≡ parse_members libc limits fuel depth (set_member k v before) rest
    unfolding parse_value and_then expect peek_is
    parse_members-more rest p q e f =
        rw (p, peek_is-quote k s₁, parse_string-quote k s₁, q, e, f) refl

  abbrev pub ReadsMembers : Members → Type 0
  ReadsMembers ms =
      (k : Bytes) (v : Value)
      → ReadsValue libc limits indent v
      → (fuel depth : ℕ) (rest : Bytes) (before : Members)
      → DocumentMembers (ReadsBack libc) limits (suc depth) (member k v ms)
      → 3 * length (dump_members libc indent (member k v ms) depth) + 1 < fuel
      → parse_members libc limits fuel depth before (
          dump_members libc indent (member k v ms) depth
          ++ close_text libc limits indent b'}' depth rest)
        ≡ done (put_all before (member k v ms)) rest

  skip_whitespace-value :
      (v : Value) (depth : ℕ) (s : Bytes)
      → Document (ReadsBack libc) limits depth v
      → skip_whitespace (gap ++ (dump_into libc indent v depth ++ s))
        ≡ dump_into libc indent v depth ++ s
  skip_whitespace-value v depth s doc =
      skip_whitespace-gap (dump_into libc indent v depth ++ s)
      ∙ skip_whitespace-opens _ (dump_into-opens libc limits indent v depth s doc)

  pub read_members_end : ReadsMembers end
  unfolding Document dump_into put_all
  read_members_end k v reads zero depth rest before doc h = absurd (omega arith)
  read_members_end k v reads (suc fuel) depth rest before doc h =
      let close = close_text libc limits indent b'}' depth rest in
      let tail = behind_field end depth close in
      parse_members-last fuel depth _ _ _ tail before k v rest
        (skip_whitespace-field k v end depth close)
        (skip_whitespace-colon (dump_into libc indent v (suc depth) ++ tail))
        (rw (skip_whitespace-value v (suc depth) tail doc.0) (
          reads fuel (suc depth) tail doc.0
            (ends_number-close_text libc limits indent b'}' depth rest (unfold ends_number in refl))
            (omega (arith, length-dump_members k v end depth))))
        (skip_whitespace-close_text libc limits indent b'}' depth rest (unfold is_space in refl))

  pub read_members_member :
      (l : Bytes) (w : Value) (ms : Members)
      → ReadsValue libc limits indent w
      → ReadsMembers ms
      → ReadsMembers (member l w ms)
  unfolding Document skip_whitespace is_space ends_number put_all
  read_members_member l w ms reads_w reads_ms k v reads zero depth rest before doc h =
      absurd (omega arith)
  read_members_member l w ms reads_w reads_ms k v reads (suc fuel) depth rest before doc h =
      let close = close_text libc limits indent b'}' depth rest in
      let tail = behind_field (member l w ms) depth close in
      let others = dump_members libc indent (member l w ms) depth ++ close in
      let enough = length-dump_members k v (member l w ms) depth in
      parse_members-more fuel depth _ _ _ tail before k v (newline indent ++ others)
        (skip_whitespace-field k v (member l w ms) depth close)
        (skip_whitespace-colon (dump_into libc indent v (suc depth) ++ tail))
        (rw (skip_whitespace-value v (suc depth) tail doc.0)
          (reads fuel (suc depth) tail doc.0 refl (omega (arith, enough))))
        refl
      ∙ (parse_members-skip libc limits indent fuel depth _ (newline indent ++ others) others
            (skip_whitespace-newline indent others)
          ∙ reads_ms l w reads_w fuel depth rest _ doc.1 (omega (arith, enough)))
