-- ===== src/Selector.antt =====
-- Which tests run, and in which order (include/testforge/testing/TestSelector.hpp,
-- src/testing/TestSelector.cpp).
pub mod Filter
pub mod Shards
pub mod Order
use testforge.Base.{
  ltb_ℤ, pos_part, codes, not, is_empty, pos, [], false, true, ◌++◌, ◌∷◌, ◌&&◌, ◌%◌, if◌then◌else◌,
  ◌==◌, keep, ℤ, ℕ, Bytes, any, Bool, List, arith,
}
use testforge.Strings.Glob.{glob_match}
use testforge.Sorting.{sort_by}
use testforge.Ids.{fnv1a64}
use testforge.TestCase.{TestMetadata, qualified_name}
use testforge.Registry
use testforge.Registry.{Registry}

pub record TestFilter : Type 0 where
  pub suites : List Bytes
  pub names : List Bytes
  pub tags : List Bytes
  pub exclude_tags : List Bytes
  pub exclude_suites : List Bytes
  pub include_disabled : Bool

unfoldable pub filter_empty : TestFilter → Bool
filter_empty f =
    is_empty f.suites
    && is_empty f.names
    && is_empty f.tags
    && is_empty f.exclude_tags
    && is_empty f.exclude_suites

unfoldable pub matches_any_glob : List Bytes → Bytes → Bool
unfolding any
matches_any_glob patterns text = any (λ pattern'. glob_match pattern' text) patterns

-- `TestFilter::matches`, with its early returns.
unfoldable pub matches : TestFilter → TestMetadata → Bool
unfolding any qualified_name
matches f m =
    if not m.enabled && not f.include_disabled
    then false
    else if not (is_empty f.suites) && not (matches_any_glob f.suites m.suite)
    then false
    else if not (is_empty f.exclude_suites) && matches_any_glob f.exclude_suites m.suite
    then false
    else if not (is_empty f.names)
        && not (matches_any_glob f.names (qualified_name m))
        && not (matches_any_glob f.names m.name)
    then false
    else if not (is_empty f.tags) && not (any (matches_any_glob f.tags) m.tags)
    then false
    else if not (is_empty f.exclude_tags) && any (matches_any_glob f.exclude_tags) m.tags
    then false
    else true

-- `appendFilterPart`: a blank in front of every flag but the first of the text.
unfoldable pub append_filter_part : Bytes → Bytes → List Bytes → Bytes
append_filter_part os flag [] = os
append_filter_part os flag (value ∷ values) =
    append_filter_part ((if is_empty os then os else os ++ b' ' ∷ []) ++ flag ++ b' ' ∷ value) flag
      values

unfoldable pub describe : TestFilter → Bytes
unfolding append_filter_part
describe f =
    let suites = append_filter_part [] (codes "--suite") f.suites in
    let names = append_filter_part suites (codes "--test") f.names in
    let tags = append_filter_part names (codes "--tag") f.tags in
    let without = append_filter_part tags (codes "--exclude-tag") f.exclude_tags in
    let all = append_filter_part without (codes "--exclude-suite") f.exclude_suites in
    let text =
      if f.include_disabled
      then (if is_empty all then all else all ++ b' ' ∷ []) ++ codes "--include-disabled"
      else all in
    if is_empty text then codes "<all tests>" else text

pub record SelectionOptions : Type 0 where
  pub shuffle : Bool
  pub seed : ℕ
  pub shard_count : ℤ
  pub shard_index : ℤ

-- A seed of zero asks for the clock.
unfoldable pub resolve_seed : ℕ → ℕ → ℕ
resolve_seed now requested = if requested == 0 then now else requested

-- The shard that a test belongs to, by the hash of its name.
unfoldable pub shard_of : ℕ → TestMetadata → ℕ
unfolding fnv1a64 qualified_name
shard_of count m = fnv1a64 (qualified_name m) % count

-- The test that keeps the tests of one shard.
unfoldable pub in_shard : ℤ → ℤ → TestMetadata → Bool
unfolding shard_of
in_shard count index m = shard_of (pos_part count) m == pos_part index % pos_part count

unfoldable pub apply_shard : SelectionOptions → List TestMetadata → List TestMetadata
unfolding in_shard keep
apply_shard o selected =
    if ltb_ℤ (pos 1) o.shard_count
    then keep (in_shard o.shard_count o.shard_index) selected
    else selected

-- `std::shuffle` with a generator seeded by the first argument is a parameter, and so is the reading
-- of the clock.
module _ (std_shuffle : ℕ → List TestMetadata → List TestMetadata) (now : ℕ) where
  unfoldable pub select : List TestMetadata → TestFilter → SelectionOptions → List TestMetadata
  unfolding matches sort_by apply_shard resolve_seed keep qualified_name
  select candidates f o =
      let sorted = sort_by qualified_name (keep (matches f) candidates) in
      let shard = apply_shard o sorted in
      if o.shuffle then std_shuffle (resolve_seed now o.seed) shard else shard

  unfoldable pub select_registered {ℓ} :
      {T : Type ℓ} → Registry T → TestFilter → SelectionOptions → List TestMetadata
  unfolding select Registry.all
  select_registered registry f o = select (Registry.all registry) f o
