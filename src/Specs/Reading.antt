-- ===== src/Specs/Reading.antt =====
-- Specifications read from JSON (src/ai/TestSpec.cpp: SpecAssertion::fromJson, TestSpec::fromJson,
-- TestSpecSuite::fromJson, TestSpecSuite::parse). The left case is the text of `error`.
use testforge.Base.{
  is_empty, not, ℤ, codes, Option, List, pos, inr, inl, some, none, [], ◌++◌, ◌∷◌, ◌&&◌, ◌⊎◌, ◌*◌,
  if◌then◌else◌, Bytes,
}
use testforge.Json.{
  end, array, string, null, object, nil, cons, Members, string_or, Value, is_number, is_object,
  as_int, Items, find,
}
use testforge.Specs.{
  all_kinds, Kind, TestSpecSuite, SpecAssertion, TestSpec, needs_target, kind_from_string,
  kind_name,
}
use testforge.Strings.Case.{to_upper, trim}
use testforge.CommandLine.Selected.{to_int32}
use testforge.Json.Text.Parser.{try_parse, ParseLimits}
use testforge.Json.Access.{items_of}
use testforge.Json.Text.Number.{CLibrary}

unfoldable pub read_string : Bytes → Bytes → Value → Bytes
unfolding find string_or
read_string key fallback v = elim (find key v) [ none ↦ fallback | some w ↦ string_or fallback w ]

-- `asInt` of a member that is a number.
unfoldable pub read_number : Bytes → Value → Option ℤ
unfolding find is_number as_int
read_number key v = elim (find key v) [
  | none ↦ none
  | some w ↦ if is_number w then as_int w else none
]

-- The elements of a member that is an array, and none of any other.
unfoldable pub read_items : Bytes → Value → Items
unfolding find items_of
read_items key v = elim (find key v) [ none ↦ nil | some w ↦ items_of w ]

unfoldable pub texts_of : Items → List Bytes
texts_of nil = []
texts_of (cons (string s) xs) = s ∷ texts_of xs
texts_of (cons _ xs) = texts_of xs

-- `static_cast<int>` of each element that is a number.
unfoldable pub statuses_of : Items → List ℤ
unfolding as_int to_int32
statuses_of nil = []
statuses_of (cons x xs) = elim (as_int x) [
  | none ↦ statuses_of xs
  | some n ↦ to_int32 n ∷ statuses_of xs
]

unfoldable pub join_kinds : List Kind → Bytes
unfolding kind_name
join_kinds [] = []
join_kinds (k ∷ []) = kind_name k
join_kinds (k ∷ l ∷ ks) = kind_name k ++ codes ", " ++ join_kinds (l ∷ ks)

unfoldable pub assertion_from_json : Value → Bytes ⊎ SpecAssertion
unfolding is_object read_string kind_from_string join_kinds needs_target kind_name find
assertion_from_json v =
    let kind_text = read_string (codes "kind") [] v in
    let target = read_string (codes "target") [] v in
    let expected = elim (find (codes "expected") v) as (λ _. Value) [ none ↦ null | some w ↦ w ] in
    if not (is_object v)
    then inl (codes "assertion must be an object")
    else elim (kind_from_string kind_text) [
      | none ↦ inl (
          codes "unknown assertion kind '"
          ++ kind_text
          ++ codes "'; supported kinds are "
          ++ join_kinds all_kinds)
      | some k ↦
          if needs_target k && is_empty target
          then inl (codes "assertion '" ++ kind_name k ++ codes "' requires a non-empty 'target'")
          else inr (record { kind = k; target = target; expected = expected })
    ]

-- The loop over the assertions; the error carries the name of the test.
unfoldable pub assertions_from : Bytes → Items → Bytes ⊎ List SpecAssertion
unfolding assertion_from_json
assertions_from name nil = inr []
assertions_from name (cons x xs) =
    let later = assertions_from name xs in
    elim (assertion_from_json x) [
      | inl error ↦ inl (codes "test '" ++ name ++ codes "': " ++ error)
      | inr a ↦ elim later [ inl error ↦ inl error | inr rest ↦ inr (a ∷ rest) ]
    ]

-- "endpoint", or its synonym "path" where that is empty.
unfoldable pub read_endpoint : Value → Bytes
unfolding read_string trim
read_endpoint v =
    let endpoint = trim (read_string (codes "endpoint") [] v) in
    if is_empty endpoint then trim (read_string (codes "path") [] v) else endpoint

unfoldable pub read_expected_status : Value → ℤ
unfolding read_number to_int32
read_expected_status v = elim (read_number (codes "expected_status") v) [
  | some n ↦ to_int32 n
  | none ↦ elim (read_number (codes "expectedStatus") v) [ some n ↦ to_int32 n | none ↦ pos 200 ]
]

unfoldable pub read_headers : Value → Members
unfolding find
read_headers v = elim (find (codes "headers") v) [ some (object ms) ↦ ms | _ ↦ end ]

unfoldable pub spec_from_json : Value → Bytes ⊎ TestSpec
unfolding is_object read_string trim to_upper read_endpoint read_expected_status read_headers
    read_items texts_of statuses_of read_number assertions_from find
spec_from_json v =
    let name = trim (read_string (codes "name") [] v) in
    let endpoint = read_endpoint v in
    let body = elim (find (codes "body") v) as (λ _. Value) [ none ↦ null | some w ↦ w ] in
    let budget = elim (read_number (codes "max_response_time_ms") v) as (λ _. ℤ) [
      | none ↦ pos 0
      | some n ↦ n
    ] in
    if not (is_object v)
    then inl (codes "test must be an object")
    else if is_empty name
    then inl (codes "test is missing a 'name'")
    else if is_empty endpoint
    then inl (codes "test '" ++ name ++ codes "' is missing an 'endpoint'")
    else elim (assertions_from name (read_items (codes "assertions") v)) [
      | inl error ↦ inl error
      | inr assertions ↦ inr (record {
        name = name;
        description = read_string (codes "description") [] v;
        method = to_upper (trim (read_string (codes "method") (codes "GET") v));
        endpoint = endpoint;
        headers = read_headers v;
        body = body;
        expected_status = read_expected_status v;
        acceptable_statuses = statuses_of (read_items (codes "acceptable_statuses") v);
        max_response_time_ms = budget;
        assertions = assertions;
        tags = texts_of (read_items (codes "tags") v);
      })
    ]

unfoldable pub specs_from : Items → Bytes ⊎ List TestSpec
unfolding spec_from_json
specs_from nil = inr []
specs_from (cons x xs) =
    let later = specs_from xs in
    elim (spec_from_json x) [
      | inl error ↦ inl error
      | inr spec ↦ elim later [ inl error ↦ inl error | inr rest ↦ inr (spec ∷ rest) ]
    ]

unfoldable pub suite_from_json : Value → Bytes ⊎ TestSpecSuite
unfolding is_object read_string trim specs_from find
suite_from_json v =
    let suite = trim (read_string (codes "suite") [] v) in
    if not (is_object v)
    then inl (codes "the specification document must be a JSON object")
    else if is_empty suite
    then inl (codes "the specification is missing a 'suite' name")
    else elim (find (codes "tests") v) [
      | some (array nil) ↦ inl (codes "the specification contains no tests")
      | some (array (cons x xs)) ↦ elim (specs_from (cons x xs)) [
        | inl error ↦ inl error
        | inr tests ↦ inr (record {
          suite = suite;
          requirement = read_string (codes "requirement") [] v;
          source = read_string (codes "source") [] v;
          model = read_string (codes "model") [] v;
          tests = tests;
        })
      ]
      | _ ↦ inl (codes "the specification is missing a 'tests' array")
    ]

abbrev pub spec_limits : ParseLimits
spec_limits = record { max_length = 2 * 1024 * 1024; max_depth = 24 }

-- `none` is a parser that ran out of fuel.
unfoldable pub parse_suite : CLibrary → Bytes → Option (Bytes ⊎ TestSpecSuite)
unfolding try_parse suite_from_json
parse_suite libc text = elim (try_parse libc spec_limits text) [
  | none ↦ none
  | some (inl error) ↦ some (inl (codes "the specification is not valid JSON: " ++ error))
  | some (inr document) ↦ some (suite_from_json document)
]
