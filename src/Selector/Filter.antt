-- ===== src/Selector/Filter.antt =====
-- How the criteria of a filter act together (src/testing/TestSelector.cpp).
use testforge.Base.{
  Bool, Bytes, is_empty, refl, [], false, true, ◌∷◌, ◌||◌, ◌⊎◌, ◌↔◌, ◌≡◌, any, List, arith,
}
use testforge.Selector.{matches, matches_any_glob, TestFilter}
use testforge.TestCase.{qualified_name, TestMetadata}

-- What each criterion of a filter says of a test, one by one.
pub record Admits (f : TestFilter) (m : TestMetadata) : Type 0 where
  pub by_state : (m.enabled || f.include_disabled) ≡ true
  pub by_suite : (f.suites ≡ []) ⊎ (matches_any_glob f.suites m.suite ≡ true)
  pub by_exclude_suite : matches_any_glob f.exclude_suites m.suite ≡ false
  pub by_name :
      (f.names ≡ [])
      ⊎ ((matches_any_glob f.names (qualified_name m) ≡ true)
          ⊎ (matches_any_glob f.names m.name ≡ true))
  pub by_tag : (f.tags ≡ []) ⊎ (any (matches_any_glob f.tags) m.tags ≡ true)
  pub by_exclude_tag : any (matches_any_glob f.exclude_tags) m.tags ≡ false

is_empty→eq {ℓ} : {A : Type ℓ} (xs : List A) → is_empty xs ≡ true → xs ≡ []
is_empty→eq [] h = refl
is_empty→eq (x ∷ xs) h = cc

no_globs : (ps : List Bytes) (t : Bytes) → is_empty ps ≡ true → matches_any_glob ps t ≡ false
unfolding matches_any_glob
no_globs [] t h = refl
no_globs (p ∷ ps) t h = cc

any_none {ℓ} :
    {A : Type ℓ} (p : A → Bool) (xs : List A) → ((x : A) → p x ≡ false) → any p xs ≡ false
unfolding any
any_none p [] h = refl
any_none p (x ∷ xs) h = ground (arith, h x, any_none p xs h)

no_tag_globs :
    (ps : List Bytes) (ts : List Bytes) → is_empty ps ≡ true → any (matches_any_glob ps) ts ≡ false
no_tag_globs ps ts h = any_none (matches_any_glob ps) ts (λ t. no_globs ps t h)

matches→Admits : (f : TestFilter) (m : TestMetadata) → matches f m ≡ true → Admits f m
unfolding matches
matches→Admits f m h = record {
  by_state = ground arith;
  by_suite = ground (arith, is_empty→eq f.suites);
  by_exclude_suite = ground (arith, no_globs f.exclude_suites m.suite);
  by_name = ground (arith, is_empty→eq f.names);
  by_tag = ground (arith, is_empty→eq f.tags);
  by_exclude_tag = ground (arith, no_tag_globs f.exclude_tags m.tags);
}

Admits→matches : (f : TestFilter) (m : TestMetadata) → Admits f m → matches f m ≡ true
unfolding matches
Admits→matches f m a = ground arith

-- A filter admits a test exactly when every one of its criteria does: the test is enabled or
-- disabled tests are asked for, an empty list of patterns asks for nothing, and of a list that is not
-- empty one pattern must fit (for names the qualified or the bare name), and no exclusion.
pub matches_iff : (f : TestFilter) (m : TestMetadata) → (matches f m ≡ true) ↔ Admits f m
matches_iff f m = (matches→Admits f m, Admits→matches f m)
