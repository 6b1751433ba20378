-- ===== src/Json/Text/Items.antt =====
-- The items of an array, as `dumpInto` writes and `parseArray` reads them (src/core/Json.cpp).
use testforge.Base.{
  append_assoc, length-append, length, Bytes, ℕ, ℤ, suc, zero, refl, ◌++◌, ◌∷◌, ◌∙◌, ◌≡◌, ◌<◌, ◌≤◌,
  ◌*◌, ◌+◌, arith,
}
use testforge.Json.Text.Number.{CLibrary}
use testforge.Json.Text.Parser.{
  parse_items, peek_is, is_space, parse_value, skip_whitespace, ParseLimits,
}
use testforge.Json.{cons, nil, Value, Items}
use testforge.Json.Text.Printer.{pad_text, newline, items_comma, dump_items, dump_into}
use testforge.Json.Text.Document.{ReadsBack, DocumentItems, Document}
use testforge.Json.Text.Layout.{
  dump_into-opens, parse_items-skip, skip_whitespace-close_text, ends_number-close_text, close_text,
  ReadsValue,
}
use testforge.Json.Text.Numeral.{ends_number}
use testforge.Json.Text.Opening.{
  skip_whitespace-newline, skip_whitespace-opens, skip_whitespace-pad_text,
}
use testforge.Json.Text.Outcome.{pure, done, and_then}

module _ (libc : CLibrary) (limits : ParseLimits) (indent : ℤ) where
  abbrev pub ReadsItems : Items → Type 0
  ReadsItems xs =
      (x : Value)
      → ReadsValue libc limits indent x
      → (fuel depth : ℕ) (rest : Bytes)
      → DocumentItems (ReadsBack libc) limits (suc depth) (cons x xs)
      → 3 * length (dump_items libc indent (cons x xs) depth) + 1 < fuel
      → parse_items libc limits fuel depth (
          dump_items libc indent (cons x xs) depth ++ close_text libc limits indent b']' depth rest)
        ≡ done (cons x xs) rest

  -- The text behind an item: what follows the comma, if one is there.
  abbrev pub behind_item : Items → ℕ → Bytes → Bytes
  behind_item xs depth rest =
      items_comma xs ++ (newline indent ++ (dump_items libc indent xs depth ++ rest))

  dump_items-split :
      (x : Value) (xs : Items) (depth : ℕ) (rest : Bytes)
      → dump_items libc indent (cons x xs) depth ++ rest
        ≡ pad_text indent (suc depth)
          ++ (dump_into libc indent x (suc depth) ++ behind_item xs depth rest)
  unfolding dump_into
  dump_items-split x xs depth rest = simp append_assoc refl

  length-dump_items :
      (x : Value) (xs : Items) (depth : ℕ)
      → length (dump_into libc indent x (suc depth))
          + length (items_comma xs)
          + length (dump_items libc indent xs depth)
        ≤ length (dump_items libc indent (cons x xs) depth)
  unfolding dump_into
  length-dump_items x xs depth = simp length-append (omega arith)

  pub skip_whitespace-item :
      (x : Value) (xs : Items) (depth : ℕ) (rest : Bytes)
      → Document (ReadsBack libc) limits (suc depth) x
      → skip_whitespace (dump_items libc indent (cons x xs) depth ++ rest)
        ≡ dump_into libc indent x (suc depth) ++ behind_item xs depth rest
  skip_whitespace-item x xs depth rest doc =
      rw
        (
          dump_items-split x xs depth rest,
          skip_whitespace-pad_text indent (suc depth)
              (dump_into libc indent x (suc depth) ++ behind_item xs depth rest),
        )
        (skip_whitespace-opens _ (dump_into-opens libc limits indent x (suc depth) _ doc))

  module _ (fuel depth : ℕ) (s tail : Bytes) (x : Value) where
    parse_items-last :
        (rest : Bytes)
        → parse_value libc limits fuel (suc depth) (skip_whitespace s) ≡ done x tail
        → skip_whitespace tail ≡ b']' ∷ rest
        → parse_items libc limits (suc fuel) depth s ≡ done (cons x nil) rest
    unfolding parse_value peek_is and_then
    parse_items-last rest e f = rw (e, f) refl

    parse_items-more :
        (rest : Bytes)
        → parse_value libc limits fuel (suc depth) (skip_whitespace s) ≡ done x tail
        → skip_whitespace tail ≡ b',' ∷ rest
        → parse_items libc limits (suc fuel) depth s
          ≡ and_then (parse_items libc limits fuel depth rest) λ xs. pure (cons x xs)
    unfolding parse_value peek_is and_then
    parse_items-more rest e f = rw (e, f) refl

  pub read_items_nil : ReadsItems nil
  unfolding Document dump_into
  read_items_nil x reads zero depth rest doc h = absurd (omega arith)
  read_items_nil x reads (suc fuel) depth rest doc h =
      let tail = behind_item nil depth (close_text libc limits indent b']' depth rest) in
      parse_items-last fuel depth _ tail x rest
        (rw (skip_whitespace-item x nil depth (close_text libc limits indent b']' depth rest) doc.0)
          (reads fuel (suc depth) tail doc.0
            (ends_number-close_text libc limits indent b']' depth rest (unfold ends_number in refl))
            (omega (arith, length-dump_items x nil depth))))
        (skip_whitespace-close_text libc limits indent b']' depth rest (unfold is_space in refl))

  pub read_items_cons :
      (y : Value) (ys : Items)
      → ReadsValue libc limits indent y
      → ReadsItems ys
      → ReadsItems (cons y ys)
  unfolding Document skip_whitespace is_space ends_number and_then
  read_items_cons y ys reads_y reads_ys x reads zero depth rest doc h = absurd (omega arith)
  read_items_cons y ys reads_y reads_ys x reads (suc fuel) depth rest doc h =
      let tail = behind_item (cons y ys) depth (close_text libc limits indent b']' depth rest) in
      let others =
        dump_items libc indent (cons y ys) depth ++ close_text libc limits indent b']' depth rest in
      parse_items-more fuel depth _ tail x (newline indent ++ others)
        (rw
          (skip_whitespace-item x (cons y ys) depth (close_text libc limits indent b']' depth rest)
            doc.0)
          (reads fuel (suc depth) tail doc.0 refl
            (omega (arith, length-dump_items x (cons y ys) depth))))
        refl
      ∙ rw
          (
            parse_items-skip libc limits indent fuel depth (newline indent ++ others) others
                (skip_whitespace-newline indent others),
            reads_ys y reads_y fuel depth rest doc.1
                (omega (arith, length-dump_items x (cons y ys) depth)),
          )
          refl
