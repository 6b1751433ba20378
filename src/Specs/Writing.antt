-- ===== src/Specs/Writing.antt =====
-- Specifications written as JSON and described (src/ai/TestSpec.cpp: SpecAssertion::describe and the
-- three toJson).
use testforge.Base.{
  length, is_empty, ltb_ℤ, codes, Bytes, ℤ, List, negsuc, pos, [], ◌++◌, ◌∷◌, if◌then◌else◌,
}
use testforge.Json.Text.Printer.{dump}
use testforge.Json.{
  array, null, end, integer, string, nil, cons, object, Items, member, Members, Value, set_member,
}
use testforge.Json.Text.Number.{CLibrary}
use testforge.Specs.{
  status_code, status_code_in, response_time_under, body_contains, body_not_contains,
  json_field_exists, json_field_equals, header_exists, header_equals, SpecAssertion, TestSpecSuite,
  TestSpec, kind_name,
}

unfoldable pub describe_assertion : CLibrary → SpecAssertion → Bytes
unfolding dump
describe_assertion libc a =
    let expected = dump libc (negsuc 0) a.expected in
    elim a.kind as (λ _. Bytes) [
      | status_code ↦ codes "status == " ++ expected
      | status_code_in ↦ codes "status in " ++ expected
      | response_time_under ↦ codes "response time < " ++ expected ++ codes "ms"
      | body_contains ↦ codes "body contains " ++ expected
      | body_not_contains ↦ codes "body does not contain " ++ expected
      | json_field_exists ↦ codes "json has field '" ++ a.target ++ codes "'"
      | json_field_equals ↦ codes "json." ++ a.target ++ codes " == " ++ expected
      | header_exists ↦ codes "header '" ++ a.target ++ codes "' present"
      | header_equals ↦ codes "header '" ++ a.target ++ codes "' == " ++ expected
    ]

unfoldable pub assertion_to_json : SpecAssertion → Value
unfolding set_member kind_name
assertion_to_json a =
    let kind = set_member (codes "kind") (string (kind_name a.kind)) end in
    let target =
      if is_empty a.target then kind else set_member (codes "target") (string a.target) kind in
    object (set_member (codes "expected") a.expected target)

-- The loops that push the elements of a list.
unfoldable pub items_from {ℓ} : {A : Type ℓ} → (A → Value) → List A → Items
items_from f [] = nil
items_from f (x ∷ xs) = cons (f x) (items_from f xs)

-- The loop that sets the headers one by one.
unfoldable pub set_all : Members → Members → Members
unfolding set_member
set_all end out = out
set_all (member k v ms) out = set_all ms (set_member k v out)

-- A list that is set only where it has elements.
unfoldable pub set_list : Bytes → Items → Members → Members
unfolding set_member
set_list key nil out = out
set_list key (cons x xs) out = set_member key (array (cons x xs)) out

unfoldable pub set_headers : Members → Members → Members
unfolding set_member set_all
set_headers end out = out
set_headers (member k v ms) out =
    set_member (codes "headers") (object (set_all (member k v ms) end)) out

unfoldable pub set_body : Value → Members → Members
unfolding set_member
set_body null out = out
set_body body out = set_member (codes "body") body out

unfoldable pub set_budget : ℤ → Members → Members
unfolding set_member
set_budget budget out =
    if ltb_ℤ (pos 0) budget
    then set_member (codes "max_response_time_ms") (integer budget) out
    else out

unfoldable pub set_texts : TestSpec → Members
unfolding set_member
set_texts spec =
    let named = set_member (codes "name") (string spec.name) end in
    let described = set_member (codes "description") (string spec.description) named in
    let method = set_member (codes "method") (string spec.method) described in
    set_member (codes "endpoint") (string spec.endpoint) method

unfoldable pub spec_to_json : TestSpec → Value
unfolding set_texts set_headers set_body set_list set_budget items_from assertion_to_json set_member
spec_to_json spec =
    let texts = set_body spec.body (set_headers spec.headers (set_texts spec)) in
    let status = set_member (codes "expected_status") (integer spec.expected_status) texts in
    let statuses = items_from integer spec.acceptable_statuses in
    let timed =
      set_budget spec.max_response_time_ms
        (set_list (codes "acceptable_statuses") statuses status) in
    let checked =
      set_list (codes "assertions") (items_from assertion_to_json spec.assertions) timed in
    object (set_list (codes "tags") (items_from string spec.tags) checked)

unfoldable pub suite_to_json : TestSpecSuite → Value
unfolding items_from spec_to_json set_member
suite_to_json s =
    let suite = set_member (codes "suite") (string s.suite) end in
    let requirement = set_member (codes "requirement") (string s.requirement) suite in
    let source = set_member (codes "source") (string s.source) requirement in
    let model =
      if is_empty s.model then source else set_member (codes "model") (string s.model) source in
    let tests = set_member (codes "tests") (array (items_from spec_to_json s.tests)) model in
    object (set_member (codes "test_count") (integer (pos (length s.tests))) tests)
