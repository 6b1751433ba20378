-- ===== src/Json/Text/Branches.antt =====
-- The branches of `parseValue` and the entries of its two loops (src/core/Json.cpp).
use testforge.Base.{refl, [], false, ◌∙◌, Bytes, ℕ, ℤ, suc, ◌++◌, ◌∷◌, ◌≡◌, ◌≤◌, arith}
use testforge.Json.Text.Number.{CLibrary}
use testforge.Json.Text.Parser.{
  skip_whitespace, parse_members, parse_items, parse_array, parse_object, peek_is, parse_value,
  ParseLimits,
}
use testforge.Json.Text.Outcome.{pure, done, and_then}
use testforge.Json.{end, member, cons, string, array, object, Items, Members, Value}
use testforge.Json.Text.Escape.{escape_bytes, quote}
use testforge.Json.Text.Document.{ReadsBack, Document}
use testforge.Json.Text.Printer.{dump_items, dump_members, newline}
use testforge.Json.Text.Literal.{parse_string}
use testforge.Json.Text.Quoted.{parse_string-quote}
use testforge.Json.Text.Items.{skip_whitespace-item}
use testforge.Json.Text.Fields.{skip_whitespace-field}
use testforge.Json.Text.Layout.{parse_items-skip, dump_into-opens, parse_members-skip}
use testforge.Json.Text.Opening.{skip_whitespace_twice, skip_whitespace-newline, peek_is-opens}

module _ (libc : CLibrary) (limits : ParseLimits) (indent : ℤ) where
  pub parse_value-array :
      (fuel depth : ℕ) (s : Bytes)
      → depth ≤ limits.max_depth
      → parse_value libc limits (suc fuel) depth (b'[' ∷ s)
        ≡ and_then (parse_array libc limits fuel depth (b'[' ∷ s)) λ xs. pure (array xs)
  unfolding parse_value peek_is
  parse_value-array fuel depth s d = ground arith

  pub parse_value-object :
      (fuel depth : ℕ) (s : Bytes)
      → depth ≤ limits.max_depth
      → parse_value libc limits (suc fuel) depth (b'{' ∷ s)
        ≡ and_then (parse_object libc limits fuel depth (b'{' ∷ s)) λ ms. pure (object ms)
  unfolding parse_value peek_is
  parse_value-object fuel depth s d = ground arith

  pub parse_value-text :
      (fuel depth : ℕ) (s : Bytes)
      → depth ≤ limits.max_depth
      → parse_value libc limits (suc fuel) depth (b'"' ∷ s)
        ≡ and_then (parse_string (b'"' ∷ s)) λ t. pure (string t)
  unfolding parse_value peek_is
  parse_value-text fuel depth s d = ground arith

  pub parse_value-string :
      (fuel depth : ℕ) (s rest : Bytes)
      → depth ≤ limits.max_depth
      → parse_value libc limits (suc fuel) depth (quote s ++ rest) ≡ done (string s) rest
  unfolding quote and_then
  parse_value-string fuel depth s rest d =
      parse_value-text fuel depth (escape_bytes s ++ b'"' ∷ [] ++ rest) d
      ∙ rw (parse_string-quote s rest) refl

  pub parse_array-items :
      (fuel depth : ℕ) (x : Value) (xs : Items) (rest : Bytes)
      → Document (ReadsBack libc) limits (suc depth) x
      → parse_array libc limits
          (suc fuel)
          depth
          (b'[' ∷ (newline indent ++ (dump_items libc indent (cons x xs) depth ++ rest)))
        ≡ parse_items libc limits fuel depth (dump_items libc indent (cons x xs) depth ++ rest)
  unfolding parse_value
  parse_array-items fuel depth x xs rest doc =
      let items = dump_items libc indent (cons x xs) depth ++ rest in
      let item : peek_is b']' (skip_whitespace items) ≡ false =
        rw (skip_whitespace-item libc limits indent x xs depth rest doc)
          (peek_is-opens _ (dump_into-opens libc limits indent x (suc depth) _ doc)) in
      rw (skip_whitespace-newline indent items, item)
        (parse_items-skip libc limits indent fuel depth (skip_whitespace items) items
          (skip_whitespace_twice items))

  pub parse_object-members :
      (fuel depth : ℕ) (k : Bytes) (v : Value) (ms : Members) (rest : Bytes)
      → parse_object libc limits
          (suc fuel)
          depth
          (b'{' ∷ (newline indent ++ (dump_members libc indent (member k v ms) depth ++ rest)))
        ≡ parse_members libc limits fuel depth end
            (dump_members libc indent (member k v ms) depth ++ rest)
  unfolding parse_value
  parse_object-members fuel depth k v ms rest =
      let fields = dump_members libc indent (member k v ms) depth ++ rest in
      let field : peek_is b'}' (skip_whitespace fields) ≡ false =
        rw (skip_whitespace-field libc limits indent k v ms depth rest)
          (unfold peek_is quote in refl) in
      rw (skip_whitespace-newline indent fields, field)
        (parse_members-skip libc limits indent fuel depth end (skip_whitespace fields) fields
          (skip_whitespace_twice fields))
