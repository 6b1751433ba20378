-- ===== src/Json/Text/Parser.antt =====
-- The recursive descent (src/core/Json.cpp: class Parser, parse, tryParse).
--
-- The loops and the recursion share one fuel. The text that is left shrinks with every value, so
-- thrice its length is enough.
use testforge.Base.{
  pos, inr, inl, some, none, ◌++◌, ◌⊎◌, Option, ◌*◌, ◌-◌, ◌+◌, is_empty, ltb, codes, drop, length,
  take, Bool, suc, zero, [], false, true, ◌∷◌, ◌||◌, if◌then◌else◌, ◌==◌, ℕ, eq_bytes, Bytes,
}
use testforge.Json.{
  end, Members, cons, nil, Items, string, boolean, null, object, array, set_member, Value,
}
use testforge.Json.Text.Outcome.{Outcome, pure, starved, and_then, failed, done, Parser}
use testforge.Json.Text.Number.{parse_number, CLibrary}
use testforge.Json.Text.Literal.{expect, parse_string}
use testforge.Decimal.{decimal}

pub record ParseLimits : Type 0 where
  pub max_length : ℕ
  pub max_depth : ℕ

unfoldable pub is_space : ℕ → Bool
is_space c = c == b' ' || c == 9 || c == 10 || c == 13

unfoldable pub skip_whitespace : Bytes → Bytes
unfolding is_space
skip_whitespace [] = []
skip_whitespace (c ∷ s) = let later = skip_whitespace s in if is_space c then later else c ∷ s

-- `peek() == c`, for a byte that is not zero.
unfoldable pub peek_is : ℕ → Bytes → Bool
peek_is c [] = false
peek_is c (d ∷ s) = d == c

unfoldable pub consume_literal : Bytes → Value → Parser Value
unfolding eq_bytes
consume_literal literal v s =
    if eq_bytes (take (length literal) s) literal
    then done v (drop (length literal) s)
    else failed (codes "invalid literal") s

-- `parseObject` writes the member that it reads behind the members `before`; the last of two
-- members with one name wins, at the place of the first.
module _ (libc : CLibrary) (limits : ParseLimits) where
  unfoldable mutual
    unfolding consume_literal parse_string parse_number and_then peek_is skip_whitespace expect
        set_member

    pub parse_value : ℕ → ℕ → Parser Value
    parse_value zero depth s = starved
    parse_value (suc fuel) depth s =
        let items = and_then (parse_array fuel depth s) λ xs. pure (array xs) in
        let text = and_then (parse_string s) λ t. pure (string t) in
        let members = and_then (parse_object fuel depth s) λ ms. pure (object ms) in
        if ltb limits.max_depth depth
        then failed (codes "maximum nesting depth exceeded") s
        else if is_empty s
        then failed (codes "unexpected end of input") s
        else if peek_is b'n' s
        then consume_literal (codes "null") null s
        else if peek_is b't' s
        then consume_literal (codes "true") (boolean true) s
        else if peek_is b'f' s
        then consume_literal (codes "false") (boolean false) s
        else if peek_is b'"' s
        then text
        else if peek_is b'[' s
        then items
        else if peek_is b'{' s
        then members
        else parse_number libc s

    pub parse_array : ℕ → ℕ → Parser Items
    parse_array zero depth s = starved
    parse_array (suc fuel) depth s =
        let inside = skip_whitespace (drop 1 s) in
        let items = parse_items fuel depth inside in
        if peek_is b']' inside then done nil (drop 1 inside) else items

    -- A round of the loop of `parseArray`, which starts at an item.
    pub parse_items : ℕ → ℕ → Parser Items
    parse_items zero depth s = starved
    parse_items (suc fuel) depth s =
        and_then (parse_value fuel (suc depth) (skip_whitespace s)) λ v rest.
          let behind = skip_whitespace rest in
          let more = and_then (parse_items fuel depth (drop 1 behind)) λ xs. pure (cons v xs) in
          if peek_is b',' behind
          then more
          else if peek_is b']' behind
          then done (cons v nil) (drop 1 behind)
          else failed (codes "expected ',' or ']' in array") behind

    pub parse_object : ℕ → ℕ → Parser Members
    parse_object zero depth s = starved
    parse_object (suc fuel) depth s =
        let inside = skip_whitespace (drop 1 s) in
        let members = parse_members fuel depth end inside in
        if peek_is b'}' inside then done end (drop 1 inside) else members

    -- A round of the loop of `parseObject`, which starts at a name.
    pub parse_members : ℕ → ℕ → Members → Parser Members
    parse_members zero depth before s = starved
    parse_members (suc fuel) depth before s =
        let start = skip_whitespace s in
        let round = and_then (parse_string start) λ key rest.
          and_then (expect b':' (skip_whitespace rest)) λ _ at_value.
            and_then (parse_value fuel (suc depth) (skip_whitespace at_value)) λ v left.
              let behind = skip_whitespace left in
              let after = set_member key v before in
              let more = parse_members fuel depth after (drop 1 behind) in
              if peek_is b',' behind
              then more
              else if peek_is b'}' behind
              then done after (drop 1 behind)
              else failed (codes "expected ',' or '}' in object") behind in
        if peek_is b'"' start then round else failed (codes "expected string key in object") start

  -- `parseDocument`.
  unfoldable pub parse_document : ℕ → Parser Value
  unfolding parse_value skip_whitespace and_then
  parse_document fuel s = and_then (parse_value fuel 0 (skip_whitespace s)) λ v rest.
      let left = skip_whitespace rest in
      if is_empty left
      then done v left
      else failed (codes "trailing characters after top-level value") left

-- The line and the column of a ParseError, as `fail` counts them over the text before `pos_`.
unfoldable pub locate : Bytes → ℕ × ℕ → ℕ × ℕ
locate [] (line, column) = (line, column)
locate (c ∷ s) (line, column) = locate s (if c == 10 then (suc line, 1) else (line, suc column))

pub record ParseError : Type 0 where
  pub message : Bytes
  pub offset : ℕ
  pub line : ℕ
  pub column : ℕ

-- The outcome of a whole parse.
pub data Parsed : Type 0 where
  parsed : Value → Parsed
  thrown : ParseError → Parsed
  out_of_fuel : Parsed

unfoldable pub error_at : Bytes → Bytes → Bytes → ParseError
unfolding locate
error_at text message left =
    let offset = length text - length left in
    let place = locate (take offset text) (1, 1) in
    record { message = message; offset = offset; line = place.0; column = place.1 }

unfoldable pub to_parsed : Bytes → Outcome Value → Parsed
unfolding error_at
to_parsed text (done v left) = parsed v
to_parsed text (failed message left) = thrown (error_at text message left)
to_parsed text starved = out_of_fuel

module _ (libc : CLibrary) (limits : ParseLimits) where
  unfoldable pub parse : Bytes → Parsed
  unfolding parse_document to_parsed
  parse text =
      if ltb limits.max_length (length text)
      then thrown (record {
        message = codes "document exceeds maximum length";
        offset = 0;
        line = 1;
        column = 1;
      })
      else to_parsed text (parse_document libc limits (3 * length text + 4) text)

-- `formatParseError`: the text of the exception.
unfoldable pub describe_error : ParseError → Bytes
unfolding decimal
describe_error e =
    codes "JSON parse error at line "
    ++ decimal (pos e.line)
    ++ codes ", column "
    ++ decimal (pos e.column)
    ++ codes ": "
    ++ e.message

-- `tryParse`: the value, or the text that it stores in `*error`.
unfoldable pub try_parse : CLibrary → ParseLimits → Bytes → Option (Bytes ⊎ Value)
unfolding parse describe_error
try_parse libc limits text = elim (parse libc limits text) [
  | parsed v ↦ some (inr v)
  | thrown e ↦ some (inl (describe_error e))
  | out_of_fuel ↦ none
]
