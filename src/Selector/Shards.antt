-- ===== src/Selector/Shards.antt =====
-- The shards of a selection (src/testing/TestSelector.cpp).
use native.Mathlib.Nat.{mod-eq_of_lt, mod-lt}
use testforge.Base.{
  ◌↔◌, subst, ◌≤◌, ap, Bool, lt→ltb, keep, List, pos, suc, zero, [], false, true, ◌++◌, ◌≡◌, ◌<◌,
  ◌+◌, if◌then◌else◌, ◌==◌, ℕ, arith,
}
use mathlib.Core.List.{Mem, Perm}
use mathlib.Core.List.Perm
use testforge.TestCase.{qualified_name, TestMetadata}
use testforge.Selector.{
  resolve_seed, matches, shard_of, in_shard, SelectionOptions, apply_shard, select, TestFilter,
}
use testforge.Sorting.{sort_by}
use testforge.Ids.{fnv1a64}
use testforge.Keep.Buckets.{buckets, buckets_all}
use testforge.Sorting.Order.{sort_by-perm}
use testforge.Keep.{mem-keep}

module _ (std_shuffle : ℕ → List TestMetadata → List TestMetadata) (now : ℕ) where
  -- The selections of the shards 0 … k - 1 of n, one after another.
  abbrev pub shards : List TestMetadata → TestFilter → SelectionOptions → ℕ → ℕ → List TestMetadata
  shards candidates f o n zero = []
  shards candidates f o n (suc k) =
      shards candidates f o n k
      ++ select std_shuffle now candidates f (record o { shard_count = pos n; shard_index = pos k })

  module _ (shuffles : (seed : ℕ) (ms : List TestMetadata) → Perm (std_shuffle seed ms) ms) where
    select-perm :
        (candidates : List TestMetadata) (f : TestFilter) (o : SelectionOptions)
        → Perm
            (select std_shuffle now candidates f o)
            (apply_shard o (sort_by qualified_name (keep (matches f) candidates)))
    unfolding select
    select-perm candidates f o = by_shuffle o.shuffle
      where
        shard : List TestMetadata
        shard = apply_shard o (sort_by qualified_name (keep (matches f) candidates))

        by_shuffle :
            (b : Bool)
            → Perm (if b then std_shuffle (resolve_seed now o.seed) shard else shard) shard
        by_shuffle true = shuffles _ shard
        by_shuffle false = Perm.refl shard

    apply_shard-bucket :
        (o : SelectionOptions) (n k : ℕ) (ms : List TestMetadata)
        → 1 < n
        → k < n
        → apply_shard (record o { shard_count = pos n; shard_index = pos k }) ms
          ≡ keep (λ m. shard_of n m == k) ms
    unfolding apply_shard in_shard
    apply_shard-bucket o n k ms h below =
        rw (lt→ltb 1 (n + 0) (omega arith))
          (ap (λ j. keep (λ m. shard_of n m == j) ms) (mod-eq_of_lt below))

    shards-buckets :
        (candidates : List TestMetadata) (f : TestFilter) (o : SelectionOptions) (n k : ℕ)
        → 1 < n
        → k ≤ n
        → Perm
            (shards candidates f o n k)
            (buckets (shard_of n) k (sort_by qualified_name (keep (matches f) candidates)))
    shards-buckets candidates f o n zero h below = Perm.refl []
    shards-buckets candidates f o n (suc k) h below =
        Perm.append (shards-buckets candidates f o n k h (omega arith)) (
          subst
            (Perm (
              select std_shuffle now candidates f
                (record o { shard_count = pos n; shard_index = pos k })))
            (apply_shard-bucket o n k _ h below) (select-perm candidates f _))

    shard_of-lt : (n : ℕ) (m : TestMetadata) → 1 < n → shard_of n m < n
    unfolding shard_of
    shard_of-lt n m h = mod-lt (fnv1a64 (qualified_name m)) (omega arith)

    -- If `std::shuffle` permutes, the shards 0 … n - 1 of a selection are together the selection
    -- that an unsharded run makes: no test is lost, and none runs in two shards, in whatever order
    -- each of the runs shuffles.
    pub shards_partition :
        (candidates : List TestMetadata) (f : TestFilter) (o : SelectionOptions) (n : ℕ)
        → 1 < n
        → Perm
            (shards candidates f o n n)
            (select std_shuffle now candidates f (record o { shard_count = pos 1 }))
    unfolding apply_shard
    shards_partition candidates f o n h =
        let sorted = sort_by qualified_name (keep (matches f) candidates) in
        Perm.trans (shards-buckets candidates f o n n h (omega arith)) (
          Perm.trans (buckets_all (shard_of n) n sorted (λ m. shard_of-lt n m h))
            (Perm.symm (select-perm candidates f (record o { shard_count = pos 1 }))))

    -- If `std::shuffle` permutes, an unsharded run selects exactly the candidates that the filter
    -- admits.
    pub mem-select_iff :
        (candidates : List TestMetadata) (f : TestFilter) (o : SelectionOptions) (m : TestMetadata)
        → Mem m (select std_shuffle now candidates f (record o { shard_count = pos 1 }))
          ↔ (Mem m candidates × (matches f m ≡ true))
    unfolding apply_shard
    mem-select_iff candidates f o m =
        let p = Perm.mem_iff {a = m} (
          Perm.trans (select-perm candidates f (record o { shard_count = pos 1 }))
            (sort_by-perm qualified_name (keep (matches f) candidates))) in
        let q = mem-keep (matches f) m candidates in (λ h. q.0 (p.0 h), λ h. p.1 (q.1 h))
