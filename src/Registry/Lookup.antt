-- ===== src/Registry/Lookup.antt =====
-- What a registration and a removal do to the tests that are found by name
-- (src/testing/TestRegistry.cpp).
use testforge.Base.{
  eq_bytes→eq, ◌+◌, subst, refl, [], ◌∷◌, eq_bytes, Bytes, Option, some, none, true, ◌≡◌,
  if◌then◌else◌, arith,
}
use testforge.Registry.{size, remove_suite, Entry, Registry, create, find, register_test}
use testforge.TestCase.{qualified_name, TestMetadata}
use testforge.StringMap.{IsOrdered, lookup-Above, Above, lookup-insert, lookup}
use testforge.Registry.Invariant.{IsRegistry}

module _ {ℓ} {T : Type ℓ} where
  -- After a registration that succeeds, the test is found under its name and made by its factory,
  -- and what is found and made under every other name is as before.
  pub register_test-finds :
      (m : TestMetadata) (f : Option (Option T)) (entries after : Registry T) (name : Bytes)
      → register_test m f entries ≡ some after
      → (find name after ≡ (if eq_bytes (qualified_name m) name then some m else find name entries))
        × (create name after ≡ (
            if eq_bytes (qualified_name m) name
            then elim f [ none ↦ none | some made ↦ made ]
            else create name entries))
  unfolding register_test find create
  register_test-finds m f entries after name h =
      let entry : Entry T = record { metadata = m; factory = f } in
      ground (arith, lookup-insert (qualified_name m) name entry entries)

  lookup-below :
      (j k : Bytes) (entries : Registry T)
      → Above j entries
      → eq_bytes j k ≡ true
      → lookup k entries ≡ none
  lookup-below j k entries a same =
      lookup-Above k entries (subst (λ i. Above i entries) (eq_bytes→eq j k same) a)

  lookup-remove_suite :
      (suite k : Bytes) (entries : Registry T)
      → IsOrdered entries
      → lookup k (remove_suite suite entries).0 ≡ elim (lookup k entries) [
        | none ↦ none
        | some e ↦ if eq_bytes e.metadata.suite suite then none else some e
      ]
  unfolding lookup remove_suite
  lookup-remove_suite suite k [] o = refl
  lookup-remove_suite suite k ((j, e) ∷ entries) (a, o) =
      ground (arith, lookup-remove_suite suite k entries o, lookup-below j k entries a)

  -- Removing a suite removes every test of it and no other one: afterwards a name finds what it
  -- found before, unless that is of the suite.
  pub remove_suite-finds :
      (suite name : Bytes) (entries : Registry T)
      → IsRegistry entries
      → find name (remove_suite suite entries).0 ≡ elim (find name entries) [
        | none ↦ none
        | some m ↦ if eq_bytes m.suite suite then none else some m
      ]
  unfolding find
  remove_suite-finds suite name entries (o, k) =
      ground (arith, lookup-remove_suite suite name entries o)

  -- The number returned is that of the tests removed.
  pub remove_suite-size :
      (suite : Bytes) (entries : Registry T)
      → size (remove_suite suite entries).0 + (remove_suite suite entries).1 ≡ size entries
  unfolding size remove_suite
  remove_suite-size suite [] = refl
  remove_suite-size suite ((k, e) ∷ entries) = ground (arith, remove_suite-size suite entries)
