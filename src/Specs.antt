-- ===== src/Specs.antt =====
-- Specifications of HTTP tests, written by hand or by a model (include/testforge/ai/TestSpec.hpp,
-- src/ai/TestSpec.cpp).
pub mod Reading
pub mod Writing
pub mod Safety
pub mod Checks
pub mod Validator
pub mod Permitted
pub mod Passing
pub mod Gate
pub mod Target
use testforge.Base.{
  ℤ, codes, Option, some, none, [], false, true, ◌∷◌, if◌then◌else◌, Bool, eq_bytes, Bytes, List,
  arith,
}
use testforge.Strings.Case.{trim, to_lower}
use testforge.Json.{Members, Value}

pub data Kind : Type 0 where
  status_code status_code_in response_time_under body_contains body_not_contains : Kind
  json_field_exists json_field_equals header_exists header_equals : Kind

pub record SpecAssertion : Type 0 where
  pub kind : Kind
  pub target : Bytes
  pub expected : Value

-- The headers are the members of an object.
pub record TestSpec : Type 0 where
  pub name : Bytes
  pub description : Bytes
  pub method : Bytes
  pub endpoint : Bytes
  pub headers : Members
  pub body : Value
  pub expected_status : ℤ
  pub acceptable_statuses : List ℤ
  pub max_response_time_ms : ℤ
  pub assertions : List SpecAssertion
  pub tags : List Bytes

pub record TestSpecSuite : Type 0 where
  pub suite : Bytes
  pub requirement : Bytes
  pub source : Bytes
  pub model : Bytes
  pub tests : List TestSpec

unfoldable pub kind_name : Kind → Bytes
kind_name status_code = codes "status_code"
kind_name status_code_in = codes "status_code_in"
kind_name response_time_under = codes "response_time_under_ms"
kind_name body_contains = codes "body_contains"
kind_name body_not_contains = codes "body_not_contains"
kind_name json_field_exists = codes "json_field_exists"
kind_name json_field_equals = codes "json_field_equals"
kind_name header_exists = codes "header_exists"
kind_name header_equals = codes "header_equals"

abbrev pub all_kinds : List Kind
all_kinds =
    status_code ∷ status_code_in ∷ response_time_under ∷ body_contains ∷ body_not_contains
    ∷ json_field_exists ∷ json_field_equals ∷ header_exists ∷ header_equals ∷ []

-- The loop of `kindFromString` over the table.
unfoldable pub kind_named : Bytes → List Kind → Option Kind
unfolding kind_name eq_bytes
kind_named text [] = none
kind_named text (k ∷ ks) =
    let later = kind_named text ks in if eq_bytes text (kind_name k) then some k else later

unfoldable pub kind_from_string : Bytes → Option Kind
unfolding kind_named to_lower trim
kind_from_string text = kind_named (to_lower (trim text)) all_kinds

-- `assertion.kind` needs a target.
unfoldable pub needs_target : Kind → Bool
needs_target json_field_exists = true
needs_target json_field_equals = true
needs_target header_exists = true
needs_target header_equals = true
needs_target _ = false
