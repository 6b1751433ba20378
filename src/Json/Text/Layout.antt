-- ===== src/Json/Text/Layout.antt =====
-- What a written value and the layout around it look like to the parser (src/core/Json.cpp:
-- dumpInto, skipWhitespace).
use testforge.Json.Text.Opening.{
  skip_whitespace-newline, skip_whitespace-pad_text, parse_number-starts, starts_number-opens,
  starts_number-append, parse_value-number, opens_value,
}
use testforge.Base.{
  negsuc, pos, ◌*◌, ◌∙◌, length-append, append-nil, length, Bytes, ℕ, ℤ, suc, zero, refl, [], false,
  true, ◌++◌, ◌∷◌, ◌≡◌, ◌<◌, ◌≤◌, arith,
}
use testforge.Json.Text.Number.{parse_number, CLibrary}
use testforge.Json.Text.Parser.{
  is_space, parse_members, parse_items, skip_whitespace, parse_value, ParseLimits,
}
use testforge.Json.Text.Printer.{newline, pad_text, dump_into}
use testforge.Json.Text.Escape.{escape_bytes, quote}
use testforge.Json.{
  end, nil, null, member, object, cons, array, string, double, integer, boolean, Members, Value,
}
use testforge.Json.Text.Document.{ReadsBack, Document}
use testforge.Json.Text.Outcome.{done}
use testforge.Json.Text.Numeral.{parse_number-append, ends_number}
use testforge.Json.Text.Integer.{parse_number-decimal}

module _ (libc : CLibrary) (limits : ParseLimits) (indent : ℤ) where
  pub dump_into-opens :
      (v : Value) (depth : ℕ) (rest : Bytes)
      → Document (ReadsBack libc) limits depth v
      → opens_value (dump_into libc indent v depth ++ rest) ≡ true
  unfolding dump_into opens_value quote Document
  dump_into-opens null depth rest h = refl
  dump_into-opens (boolean true) depth rest h = refl
  dump_into-opens (boolean false) depth rest h = refl
  dump_into-opens (integer n) depth rest h =
      starts_number-opens _ rest (parse_number-starts libc _ [] _ (parse_number-decimal libc n h.1))
  dump_into-opens (double bits) depth rest h =
      starts_number-opens _ rest (parse_number-starts libc _ [] _ h.1)
  dump_into-opens (string s) depth rest h = refl
  dump_into-opens (array nil) depth rest h = refl
  dump_into-opens (array (cons x xs)) depth rest h = refl
  dump_into-opens (object end) depth rest h = refl
  dump_into-opens (object (member k v ms)) depth rest h = refl

  pub length-quote_pos : (s : Bytes) → 1 < length (quote s)
  unfolding quote
  length-quote_pos s = rw (length-append (escape_bytes s) (b'"' ∷ [])) (omega arith)

  length-opens : (t : Bytes) → opens_value t ≡ true → 0 < length t
  unfolding opens_value
  length-opens [] h = cc
  length-opens (c ∷ t) h = omega arith

  pub length-dump_pos :
      (v : Value) (depth : ℕ)
      → Document (ReadsBack libc) limits depth v
      → 0 < length (dump_into libc indent v depth)
  length-dump_pos v depth h =
      let opens = dump_into-opens v depth [] h in length-opens _ (rw append-nil at opens)

  pub parse_number-value :
      (fuel depth : ℕ) (t rest : Bytes) (v : Value)
      → depth ≤ limits.max_depth
      → parse_number libc t ≡ done v []
      → ends_number rest ≡ true
      → parse_value libc limits (suc fuel) depth (t ++ rest) ≡ done v rest
  parse_number-value fuel depth t rest v d e h =
      parse_value-number libc limits fuel depth (t ++ rest) d
        (starts_number-append t rest (parse_number-starts libc t [] v e))
      ∙ parse_number-append rest h libc t v e

  pub parse_items-skip :
      (fuel depth : ℕ) (s t : Bytes)
      → skip_whitespace s ≡ skip_whitespace t
      → parse_items libc limits fuel depth s ≡ parse_items libc limits fuel depth t
  unfolding parse_value
  parse_items-skip zero depth s t e = refl
  parse_items-skip (suc fuel) depth s t e = rw (e, parse_items) refl

  pub parse_members-skip :
      (fuel depth : ℕ) (before : Members) (s t : Bytes)
      → skip_whitespace s ≡ skip_whitespace t
      → parse_members libc limits fuel depth before s
        ≡ parse_members libc limits fuel depth before t
  unfolding parse_value
  parse_members-skip zero depth before s t e = refl
  parse_members-skip (suc fuel) depth before s t e = rw (e, parse_members) refl

  abbrev pub ReadsValue : Value → Type 0
  ReadsValue v =
      (fuel depth : ℕ) (rest : Bytes)
      → Document (ReadsBack libc) limits depth v
      → ends_number rest ≡ true
      → 3 * length (dump_into libc indent v depth) < fuel
      → parse_value libc limits fuel depth (dump_into libc indent v depth ++ rest) ≡ done v rest

  -- What stands behind the items of an array, or the members of an object.
  abbrev pub close_text : ℕ → ℕ → Bytes → Bytes
  close_text bracket depth rest = pad_text indent depth ++ bracket ∷ rest

  pub ends_number-close_text :
      (bracket depth : ℕ) (rest : Bytes)
      → ends_number (bracket ∷ rest) ≡ true
      → ends_number (newline indent ++ close_text bracket depth rest) ≡ true
  unfolding ends_number newline pad_text
  ends_number-close_text bracket depth rest h =
      elim indent as (λ i. ends_number (newline i ++ (pad_text i depth ++ bracket ∷ rest)) ≡ true) [
        | pos n ↦ refl
        | negsuc n ↦ h
      ]

  pub skip_whitespace-close_text :
      (bracket depth : ℕ) (rest : Bytes)
      → is_space bracket ≡ false
      → skip_whitespace (newline indent ++ close_text bracket depth rest) ≡ bracket ∷ rest
  unfolding skip_whitespace
  skip_whitespace-close_text bracket depth rest h =
      rw
        (
          skip_whitespace-newline indent (close_text bracket depth rest),
          skip_whitespace-pad_text indent depth (bracket ∷ rest),
          h,
        )
        refl
