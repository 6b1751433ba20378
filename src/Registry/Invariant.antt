-- ===== src/Registry/Invariant.antt =====
-- The invariant of the registry (src/testing/TestRegistry.cpp).
use testforge.Base.{
  some, Option-cases, subst, lt_bytes, Bytes, Option, All, inr, inl, refl, [], true, ◌∷◌, ◌≡◌, List,
  arith,
}
use testforge.Registry.{
  clears, register_or_replace, register_test, removes, replaces, registers, Entry, Operation, all,
  run, apply, remove_suite, Registry,
}
use testforge.TestCase.{qualified_name, TestMetadata}
use testforge.StringMap.{All-insert, insert-IsOrdered, Above, insert, IsOrdered}

-- The qualified names ascend strictly.
abbrev pub Ascends : List TestMetadata → Type 0
Ascends [] = Unit
Ascends (m ∷ ms) = All (λ n. lt_bytes (qualified_name m) (qualified_name n) ≡ true) ms × Ascends ms

module _ {ℓ} {T : Type ℓ} where
  abbrev pub IsKeyed : Registry T → Type 0
  IsKeyed = All (λ p. p.0 ≡ qualified_name p.1.metadata)

  abbrev pub IsRegistry : Registry T → Type 0
  IsRegistry entries = IsOrdered entries × IsKeyed entries

  insert-IsRegistry :
      (m : TestMetadata) (f : Option (Option T)) (entries : Registry T)
      → IsRegistry entries
      → IsRegistry (insert (qualified_name m) (record { metadata = m; factory = f }) entries)
  insert-IsRegistry m f entries (o, k) = (
    insert-IsOrdered (qualified_name m) (record { metadata = m; factory = f }) entries o,
    All-insert (λ p. p.0 ≡ qualified_name p.1.metadata) (qualified_name m)
        (record { metadata = m; factory = f }) entries refl k,
  )

  pub All-remove_suite {κ} :
      (P : Bytes × Entry T → Type κ) (suite : Bytes) (entries : Registry T)
      → All P entries
      → All P (remove_suite suite entries).0
  unfolding remove_suite
  All-remove_suite P suite [] h = tt
  All-remove_suite P suite ((k, e) ∷ entries) (h, hs) =
      ground (arith, All-remove_suite P suite entries hs)

  remove_suite-IsOrdered :
      (suite : Bytes) (entries : Registry T)
      → IsOrdered entries
      → IsOrdered (remove_suite suite entries).0
  unfolding remove_suite
  remove_suite-IsOrdered suite [] h = tt
  remove_suite-IsOrdered suite ((k, e) ∷ entries) (h, hs) = ground (
    arith,
    remove_suite-IsOrdered suite entries hs,
    All-remove_suite (λ p. lt_bytes k p.0 ≡ true) suite entries h,
  )

  register_test-IsRegistry :
      (m : TestMetadata) (f : Option (Option T)) (entries after : Registry T)
      → register_test m f entries ≡ some after
      → IsRegistry entries
      → IsRegistry after
  unfolding register_test
  register_test-IsRegistry m f entries after e h =
      let key = qualified_name m in
      let inserted = insert key (record { metadata = m; factory = f }) entries in
      let same : inserted ≡ after = ground arith in
      subst IsRegistry same (insert-IsRegistry m f entries h)

  apply-IsRegistry :
      (o : Operation T) (entries : Registry T) → IsRegistry entries → IsRegistry (apply o entries)
  unfolding apply
  apply-IsRegistry (registers m f) entries h = elim (Option-cases (register_test m f entries)) [
    | inl e ↦ rw (e, apply) h
    | inr (after, e) ↦ rw (e, apply) (register_test-IsRegistry m f entries after e h)
  ]
  apply-IsRegistry (replaces m f) entries h =
      unfold register_or_replace in insert-IsRegistry m f entries h
  apply-IsRegistry (removes suite) entries (o, k) =
      (remove_suite-IsOrdered suite entries o, All-remove_suite _ suite entries k)
  apply-IsRegistry clears entries h = (tt, tt)

  run-IsRegistry :
      (os : List (Operation T)) (entries : Registry T)
      → IsRegistry entries
      → IsRegistry (run os entries)
  unfolding run
  run-IsRegistry [] entries h = h
  run-IsRegistry (o ∷ os) entries h =
      run-IsRegistry os (apply o entries) (apply-IsRegistry o entries h)

  all-All :
      (k : Bytes) (entries : Registry T)
      → Above k entries
      → IsKeyed entries
      → All (λ n. lt_bytes k (qualified_name n) ≡ true) (all entries)
  unfolding all
  all-All k [] a h = tt
  all-All k ((j, e) ∷ entries) (a, as_rest) (h, hs) =
      (subst (λ i. lt_bytes k i ≡ true) h a, all-All k entries as_rest hs)

  all-Ascends : (entries : Registry T) → IsRegistry entries → Ascends (all entries)
  unfolding all
  all-Ascends [] h = tt
  all-Ascends ((k, e) ∷ entries) ((a, o), (h, hs)) = (
    all-All (qualified_name e.metadata) entries (subst (λ i. Above i entries) h a) hs,
    all-Ascends entries (o, hs),
  )

  -- After any sequence of registrations, replacements, removals and clearings of an empty registry,
  -- every key is its test's qualified name, and `all` lists the tests in strictly ascending order of
  -- these names: no name stands twice.
  pub run-all-Ascends :
      (os : List (Operation T)) → IsRegistry (run os []) × Ascends (all (run os []))
  run-all-Ascends os =
      let h : IsRegistry (run os []) = run-IsRegistry os [] (tt, tt) in (h, all-Ascends _ h)
