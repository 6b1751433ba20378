-- ===== src/Registry.antt =====
-- The test registry (include/testforge/testing/TestRegistry.hpp, src/testing/TestRegistry.cpp): the
-- state of `entries_` and the operations, each of which the source runs under one lock.
pub mod Invariant
pub mod Lookup
use testforge.Base.{
  is_empty, not, ℤ, map, length, Bool, suc, some, none, ◌++◌, ◌∷◌, ◌&&◌, if◌then◌else◌, [], ℕ,
  Bytes, eq_bytes, List, Option, arith,
}
use testforge.StringMap.{lookup, insert}
use testforge.TestCase.{TestMetadata, qualified_name, has_tag}
use testforge.Strings.Search.{is_some}

-- A factory is `none` where the `std::function` is empty, and `some` of what its call gives
-- otherwise, `some none` for a null pointer. A call of a factory is code of the test's author: `T`
-- stands for the tests that it makes.
pub record Entry {ℓ} (T : Type ℓ) : Type ℓ where
  pub metadata : TestMetadata
  pub factory : Option (Option T)

abbrev pub Registry {ℓ} : Type ℓ → Type ℓ
Registry T = List (Bytes × Entry T)

module _ {ℓ} {T : Type ℓ} where
  -- `none` is the `FrameworkError` of a duplicate registration.
  unfoldable pub register_test : TestMetadata → Option (Option T) → Registry T → Option (Registry T)
  unfolding lookup insert qualified_name
  register_test metadata factory entries =
      let key = qualified_name metadata in
      if is_some (lookup key entries)
      then none
      else some (insert key (record { metadata = metadata; factory = factory }) entries)

  unfoldable pub register_or_replace : TestMetadata → Option (Option T) → Registry T → Registry T
  unfolding insert qualified_name
  register_or_replace metadata factory entries =
      insert (qualified_name metadata) (record { metadata = metadata; factory = factory }) entries

  -- The registry without the suite, and the number of tests removed.
  unfoldable pub remove_suite : Bytes → Registry T → Registry T × ℕ
  unfolding eq_bytes
  remove_suite suite [] = ([], 0)
  remove_suite suite ((key, entry) ∷ entries) =
      let later = remove_suite suite entries in
      if eq_bytes entry.metadata.suite suite
      then (later.0, suc later.1)
      else ((key, entry) ∷ later.0, later.1)

  unfoldable pub contains : Bytes → Registry T → Bool
  unfolding lookup
  contains name entries = is_some (lookup name entries)

  unfoldable pub find : Bytes → Registry T → Option TestMetadata
  unfolding lookup
  find name entries = elim (lookup name entries) [ none ↦ none | some e ↦ some e.metadata ]

  -- `none` is the null pointer: no such test, no factory, or a factory that made nothing.
  unfoldable pub create : Bytes → Registry T → Option T
  unfolding lookup
  create name entries = elim (lookup name entries) [
    | none ↦ none
    | some e ↦ elim e.factory [ none ↦ none | some made ↦ made ]
  ]

  unfoldable pub all : Registry T → List TestMetadata
  all [] = []
  all ((key, entry) ∷ entries) = entry.metadata ∷ all entries

  unfoldable pub size : Registry T → ℕ
  size entries = length entries

  unfoldable pub clear : Registry T → Registry T
  clear entries = []

-- `std::set<std::string>`, read out in order: what was inserted, each once.
unfoldable pub insert_each : List Bytes → List (Bytes × Unit {0}) → List (Bytes × Unit {0})
unfolding insert
insert_each [] unique = unique
insert_each (s ∷ rest) unique = insert_each rest (insert s tt unique)

unfoldable pub collect_suites :
    List TestMetadata → List (Bytes × Unit {0}) → List (Bytes × Unit {0})
unfolding insert
collect_suites [] unique = unique
collect_suites (m ∷ rest) unique = collect_suites rest (insert m.suite tt unique)

unfoldable pub collect_tags : List TestMetadata → List (Bytes × Unit {0}) → List (Bytes × Unit {0})
unfolding insert_each
collect_tags [] unique = unique
collect_tags (m ∷ rest) unique = collect_tags rest (insert_each m.tags unique)

abbrev pub keys {ℓ} : {V : Type ℓ} → List (Bytes × V) → List Bytes
keys = map (λ p. p.0)

module _ {ℓ} {T : Type ℓ} where
  unfoldable pub suites : Registry T → List Bytes
  unfolding collect_suites all
  suites entries = keys (collect_suites (all entries) [])

  unfoldable pub tags : Registry T → List Bytes
  unfolding collect_tags all
  tags entries = keys (collect_tags (all entries) [])

-- The options of a `TESTFORGE_TEST`, and the metadata that `AutoRegistration` makes of them.
pub record TestOptions : Type 0 where
  pub description : Bytes
  pub tags : List Bytes
  pub timeout_ms : ℤ
  pub enabled : Bool
  pub disabled_reason : Bytes
  pub owner : Bytes

unfoldable pub auto_metadata : Bytes → Bytes → Bytes → ℤ → TestOptions → TestMetadata
unfolding has_tag
auto_metadata suite name file line options =
    let metadata : TestMetadata = record {
      name = name;
      suite = suite;
      description = options.description;
      tags = options.tags;
      timeout_ms = options.timeout_ms;
      enabled = options.enabled;
      disabled_reason = options.disabled_reason;
      owner = options.owner;
      source_file = file;
      source_line = line;
    } in
    if not (is_empty suite) && not (has_tag metadata suite)
    then record metadata { tags = metadata.tags ++ suite ∷ [] }
    else metadata

-- The operations that change a registry, as they come one after another.
pub data Operation {ℓ} (T : Type ℓ) : Type ℓ where
  registers replaces : TestMetadata → Option (Option T) → Operation T
  removes : Bytes → Operation T
  clears : Operation T

module _ {ℓ} {T : Type ℓ} where
  -- A registration that throws leaves the registry as it was.
  unfoldable pub apply : Operation T → Registry T → Registry T
  unfolding register_or_replace clear
  apply (registers m f) entries = elim (register_test m f entries) [
    | none ↦ entries
    | some after ↦ after
  ]
  apply (replaces m f) entries = register_or_replace m f entries
  apply (removes suite) entries = (remove_suite suite entries).0
  apply clears entries = clear entries

  unfoldable pub run : List (Operation T) → Registry T → Registry T
  unfolding apply
  run [] entries = entries
  run (o ∷ os) entries = run os (apply o entries)
