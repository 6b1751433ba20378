-- ===== src/Json/Text/RoundTrip.antt =====
-- What `dump` writes, `parse` reads (src/core/Json.cpp).
use testforge.Base.{
  append-nil, ltb, ◌*◌, length-append, codes, Bool, ◌+◌, true, eq_bytes, append_assoc, ◌<◌, length,
  zero, refl, [], false, Bytes, ℕ, ℤ, suc, ◌++◌, ◌∷◌, ◌≡◌, ◌≤◌, arith,
}
use testforge.Json.Text.Number.{parse_number, CLibrary}
use testforge.Json.Text.Parser.{
  parsed, to_parsed, parse_document, parse, is_space, consume_literal, skip_whitespace, peek_is,
  parse_value, ParseLimits,
}
use testforge.Json.Text.Outcome.{done, and_then}
use testforge.Json.{
  double, integer, boolean, nil, null, end, member, cons, string, array, object, Items, Members,
  Value,
}
use testforge.Json.Text.Escape.{quote}
use testforge.Json.Text.Document.{ReadsBack, Document}
use testforge.Json.Text.Printer.{dump, dump_into, dump_items, dump_members, newline}
use testforge.Json.Text.Items.{read_items_cons, read_items_nil, ReadsItems}
use testforge.Json.Text.Fields.{read_members_member, read_members_end, ReadsMembers}
use testforge.Json.Text.Layout.{parse_number-value, close_text, dump_into-opens, ReadsValue}
use testforge.Json.Text.Opening.{skip_whitespace-opens}
use testforge.Json.Names.{put_all-Names}
use testforge.Json.Text.Numeral.{ends_number}
use testforge.Json.Text.Integer.{parse_number-decimal}
use testforge.Json.Text.Branches.{
  parse_object-members, parse_array-items, parse_value-string, parse_value-object,
  parse_value-array,
}

module _ (libc : CLibrary) (limits : ParseLimits) (indent : ℤ) where
  dump_array-split :
      (x : Value) (xs : Items) (depth : ℕ) (rest : Bytes)
      → dump_into libc indent (array (cons x xs)) depth ++ rest
        ≡ b'['
          ∷ (newline indent
              ++ (dump_items libc indent (cons x xs) depth
                  ++ close_text libc limits indent b']' depth rest))
  unfolding dump_into
  dump_array-split x xs depth rest = simp append_assoc refl

  length-dump_array :
      (x : Value) (xs : Items) (depth : ℕ)
      → length (dump_items libc indent (cons x xs) depth) + 2
        ≤ length (dump_into libc indent (array (cons x xs)) depth)
  unfolding dump_into
  length-dump_array x xs depth = simp length-append (omega arith)

  dump_object-split :
      (k : Bytes) (v : Value) (ms : Members) (depth : ℕ) (rest : Bytes)
      → dump_into libc indent (object (member k v ms)) depth ++ rest
        ≡ b'{'
          ∷ (newline indent
              ++ (dump_members libc indent (member k v ms) depth
                  ++ close_text libc limits indent b'}' depth rest))
  unfolding dump_into
  dump_object-split k v ms depth rest = simp append_assoc refl

  length-dump_object :
      (k : Bytes) (v : Value) (ms : Members) (depth : ℕ)
      → length (dump_members libc indent (member k v ms) depth) + 2
        ≤ length (dump_into libc indent (object (member k v ms)) depth)
  unfolding dump_into
  length-dump_object k v ms depth = simp length-append (omega arith)

  read_array :
      (x : Value) (xs : Items)
      → ReadsValue libc limits indent x
      → ReadsItems libc limits indent xs
      → ReadsValue libc limits indent (array (cons x xs))
  unfolding Document and_then
  read_array x xs reads_x reads_xs zero depth rest doc e h = absurd (omega arith)
  read_array x xs reads_x reads_xs (suc zero) depth rest doc e h =
      absurd (omega (arith, length-dump_array x xs depth))
  read_array x xs reads_x reads_xs (suc (suc fuel)) depth rest doc e h =
      rw
        (
          dump_array-split x xs depth rest,
          parse_value-array libc limits indent (suc fuel) depth _ doc.0,
          parse_array-items libc limits indent fuel depth x xs
              (close_text libc limits indent b']' depth rest) doc.1.0,
          reads_xs x reads_x fuel depth rest doc.1 (omega (arith, length-dump_array x xs depth)),
        )
        refl

  read_object :
      (k : Bytes) (v : Value) (ms : Members)
      → ReadsValue libc limits indent v
      → ReadsMembers libc limits indent ms
      → ReadsValue libc limits indent (object (member k v ms))
  unfolding Document and_then
  read_object k v ms reads_v reads_ms zero depth rest doc e h = absurd (omega arith)
  read_object k v ms reads_v reads_ms (suc zero) depth rest doc e h =
      absurd (omega (arith, length-dump_object k v ms depth))
  read_object k v ms reads_v reads_ms (suc (suc fuel)) depth rest doc e h =
      rw
        (
          dump_object-split k v ms depth rest,
          parse_value-object libc limits indent (suc fuel) depth _ doc.0,
          parse_object-members libc limits indent fuel depth k v ms
              (close_text libc limits indent b'}' depth rest),
          reads_ms k v reads_v fuel depth rest end doc.2
              (omega (arith, length-dump_object k v ms depth)),
          put_all-Names (member k v ms) doc.1,
        )
        refl

  read_array_nil :
      (fuel depth : ℕ) (rest : Bytes)
      → depth ≤ limits.max_depth
      → 5 < fuel
      → parse_value libc limits fuel depth (codes "[]" ++ rest) ≡ done (array nil) rest
  unfolding and_then parse_value peek_is skip_whitespace is_space
  read_array_nil zero depth rest d h = absurd (omega arith)
  read_array_nil (suc zero) depth rest d h = absurd (omega arith)
  read_array_nil (suc (suc fuel)) depth rest d h =
      parse_value-array libc limits indent (suc fuel) depth (b']' ∷ rest) d

  read_object_end :
      (fuel depth : ℕ) (rest : Bytes)
      → depth ≤ limits.max_depth
      → 5 < fuel
      → parse_value libc limits fuel depth (codes "{}" ++ rest) ≡ done (object end) rest
  unfolding and_then parse_value peek_is skip_whitespace is_space
  read_object_end zero depth rest d h = absurd (omega arith)
  read_object_end (suc zero) depth rest d h = absurd (omega arith)
  read_object_end (suc (suc fuel)) depth rest d h =
      parse_value-object libc limits indent (suc fuel) depth (b'}' ∷ rest) d

  read_number :
      (v : Value) (t : Bytes) (fuel depth : ℕ) (rest : Bytes)
      → depth ≤ limits.max_depth
      → parse_number libc t ≡ done v []
      → ends_number rest ≡ true
      → 0 < fuel
      → parse_value libc limits fuel depth (t ++ rest) ≡ done v rest
  read_number v t zero depth rest d p e h = absurd (omega arith)
  read_number v t (suc fuel) depth rest d p e h =
      parse_number-value libc limits indent fuel depth t rest v d p e

  read_literal :
      (v : Value) (t : Bytes) (fuel depth : ℕ) (rest : Bytes)
      → ((f : ℕ) → parse_value libc limits (suc f) depth (t ++ rest) ≡ done v rest)
      → 0 < fuel
      → parse_value libc limits fuel depth (t ++ rest) ≡ done v rest
  read_literal v t zero depth rest p h = absurd (omega arith)
  read_literal v t (suc fuel) depth rest p h = p fuel

  read_boolean : (b : Bool) → ReadsValue libc limits indent (boolean b)
  unfolding dump_into Document parse_value peek_is consume_literal eq_bytes
  read_boolean true = λ fuel depth rest doc e h.
      read_literal (boolean true) (codes "true") fuel depth rest (λ f. ground arith) (omega arith)
  read_boolean false = λ fuel depth rest doc e h.
      read_literal (boolean false) (codes "false") fuel depth rest (λ f. ground arith) (omega arith)

  abbrev AllItems : Items → Type 0
  AllItems nil = Unit
  AllItems (cons x xs) = ReadsValue libc limits indent x × ReadsItems libc limits indent xs

  abbrev AllMembers : Members → Type 0
  AllMembers end = Unit
  AllMembers (member k v ms) = ReadsValue libc limits indent v × ReadsMembers libc limits indent ms

  all_items : (xs : Items) → AllItems xs → ReadsItems libc limits indent xs
  all_items nil reads = read_items_nil libc limits indent
  all_items (cons x xs) reads = read_items_cons libc limits indent x xs reads.0 reads.1

  all_members : (ms : Members) → AllMembers ms → ReadsMembers libc limits indent ms
  all_members end reads = read_members_end libc limits indent
  all_members (member k v ms) reads = read_members_member libc limits indent k v ms reads.0 reads.1

  read_items : (xs : Items) → AllItems xs → ReadsValue libc limits indent (array xs)
  unfolding dump_into Document parse_value peek_is and_then skip_whitespace is_space
  read_items nil reads =
      λ fuel depth rest doc e h. read_array_nil fuel depth rest doc.0 (omega arith)
  read_items (cons x xs) reads = read_array x xs reads.0 reads.1

  read_members : (ms : Members) → AllMembers ms → ReadsValue libc limits indent (object ms)
  unfolding dump_into Document parse_value peek_is and_then skip_whitespace is_space
  read_members end reads =
      λ fuel depth rest doc e h. read_object_end fuel depth rest doc.0 (omega arith)
  read_members (member k v ms) reads = read_object k v ms reads.0 reads.1

  read_value : (v : Value) → ReadsValue libc limits indent v
  unfolding dump_into Document parse_value peek_is consume_literal eq_bytes
  read_value v = elim v as (ReadsValue libc limits indent) AllItems AllMembers [
    | null ↦ λ fuel depth rest doc e h.
        read_literal null (codes "null") fuel depth rest (λ f. ground arith) (omega arith)
    | boolean b ↦ read_boolean b
    | integer n ↦ λ fuel depth rest doc e h.
        read_number (integer n) _ fuel depth rest doc.0 (parse_number-decimal libc n doc.1) e
          (omega arith)
    | double bits ↦ λ fuel depth rest doc e h.
        read_number (double bits) _ fuel depth rest doc.0 doc.1 e (omega arith)
    | string s ↦ λ fuel depth rest doc e h.
        read_literal (string s) (quote s) fuel depth rest
          (λ f. parse_value-string libc limits indent f depth s rest doc) (omega arith)
    | array (xs → reads) ↦ read_items xs reads
    | object (ms → reads) ↦ read_members ms reads
    | nil ↦ tt
    | cons (y → reads_y) (ys → reads_ys) ↦ (reads_y, all_items ys reads_ys)
    | end ↦ tt
    | member l (w → reads_w) (ms → reads_ms) ↦ (reads_w, all_members ms reads_ms)
  ]

-- A document is read back from what was written of it with any indent, when the text is not longer
-- than the limit.
pub parse-dump :
    (libc : CLibrary) (limits : ParseLimits) (indent : ℤ) (v : Value)
    → Document (ReadsBack libc) limits 0 v
    → length (dump libc indent v) ≤ limits.max_length
    → parse libc limits (dump libc indent v) ≡ parsed v
unfolding parse parse_document dump to_parsed and_then skip_whitespace
parse-dump libc limits indent v doc h =
    let text = dump_into libc indent v 0 in
    let fuel = 3 * length text + 4 in
    let ends : ends_number [] ≡ true = unfold ends_number in refl in
    let first = read_value libc limits indent v fuel 0 [] doc ends (omega arith) in
    let opens = dump_into-opens libc limits indent v 0 [] doc in
    let short : ltb limits.max_length (length text) ≡ false = ground arith in
    rw (short, skip_whitespace-opens text (rw append-nil at opens), rw append-nil at first) refl
