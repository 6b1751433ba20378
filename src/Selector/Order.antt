-- ===== src/Selector/Order.antt =====
-- The order of a selection (src/testing/TestSelector.cpp).
use testforge.Base.{
  ltb_ℤ, Bool, keep, ap, map, List, ℕ, ℕ_discrete, pos, false, true, ◌≡◌, if◌then◌else◌,
}
use mathlib.Core.List.{Nodup, Perm}
use testforge.TestCase.{qualified_name, TestMetadata}
use testforge.Selector.{
  in_shard, matches, resolve_seed, SelectionOptions, TestFilter, apply_shard, select,
}
use testforge.Sorting.{sort_by, IsSorted}
use testforge.Sorting.Order.{keep-IsSorted, sort_by-IsSorted, sort_by-perm-eq}
use testforge.Keep.{keep-Nodup, keep-perm}

TestMetadata-set : IsSet TestMetadata
TestMetadata-set = hlevel ℕ_discrete

-- Where no two candidates have one qualified name, the selection does not depend on the order in
-- which the candidates come, with the same options, clock and generator.
pub select-perm-eq :
    (std_shuffle : ℕ → List TestMetadata → List TestMetadata) (now : ℕ) (xs ys : List TestMetadata)
    (f : TestFilter) (o : SelectionOptions)
    → Perm xs ys
    → Nodup (map qualified_name xs)
    → select std_shuffle now xs f o ≡ select std_shuffle now ys f o
unfolding select
select-perm-eq std_shuffle now xs ys f o p n =
    ap
      (λ sorted.
        let shard = apply_shard o sorted in
        if o.shuffle then std_shuffle (resolve_seed now o.seed) shard else shard)
      (sort_by-perm-eq qualified_name TestMetadata-set (keep-perm (matches f) p)
        (keep-Nodup (matches f) qualified_name xs n))

-- A selection that is not shuffled is in the order of the qualified names.
pub select-IsSorted :
    (std_shuffle : ℕ → List TestMetadata → List TestMetadata) (now : ℕ)
    (candidates : List TestMetadata) (f : TestFilter) (o : SelectionOptions)
    → o.shuffle ≡ false
    → IsSorted qualified_name (select std_shuffle now candidates f o)
unfolding select apply_shard
select-IsSorted std_shuffle now candidates f o h = rw h (by_count (ltb_ℤ (pos 1) o.shard_count))
  where
    sorted : List TestMetadata
    sorted = sort_by qualified_name (keep (matches f) candidates)

    in_order : IsSorted qualified_name sorted
    in_order = sort_by-IsSorted qualified_name (keep (matches f) candidates)

    by_count :
        (b : Bool)
        → IsSorted qualified_name
            (if b then keep (in_shard o.shard_count o.shard_index) sorted else sorted)
    by_count true =
        keep-IsSorted qualified_name (in_shard o.shard_count o.shard_index) sorted in_order
    by_count false = in_order
