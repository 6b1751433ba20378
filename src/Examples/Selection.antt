-- ===== src/Examples/Selection.antt =====
-- Tests of the selection of tests.
use mathlib.Core.List.{mem_of_ne_of_mem, Nodup-cons, Nodup-nil, not-mem-nil}
use mathlib.Core.List.Perm
use testforge.Base.{
  ◌≢◌, map, codes, List, ℕ, pos, suc, zero, refl, [], false, true, ◌++◌, ◌∷◌, ◌↔◌, ◌≡◌, arith,
}
use testforge.Examples.{login, search}
use testforge.Selector.{matches_any_glob, select, matches, SelectionOptions, TestFilter}
use mathlib.Core.List.{perm_append_comm, Nodup, Mem, Perm}
use testforge.TestCase.{TestMetadata, qualified_name}
use testforge.Selector.Filter.{matches_iff, Admits}
use testforge.Selector.Shards.{shards_partition, mem-select_iff, shards}
use testforge.Selector.Order.{select-perm-eq}
use testforge.Strings.Glob.{scan, glob_match}

abbrev filter : TestFilter
filter = record {
  suites = codes "auth" ∷ [];
  names = [];
  tags = codes "sm*" ∷ [];
  exclude_tags = [];
  exclude_suites = [];
  include_disabled = false;
}

abbrev everything : TestFilter
everything = record filter { suites = []; tags = [] }

abbrev options : SelectionOptions
options = record { shuffle = true; seed = 7; shard_count = pos 1; shard_index = pos 0 }

abbrev in_order : SelectionOptions
in_order = record options { shuffle = false }

-- A shuffle that depends on its seed.
abbrev turn : ℕ → List TestMetadata → List TestMetadata
turn seed [] = []
turn zero (m ∷ ms) = m ∷ ms
turn (suc seed) (m ∷ ms) = ms ++ m ∷ []

turn-perm : (seed : ℕ) (ms : List TestMetadata) → Perm (turn seed ms) ms
turn-perm zero [] = Perm.refl []
turn-perm (suc seed) [] = Perm.refl []
turn-perm zero (m ∷ ms) = Perm.refl (m ∷ ms)
turn-perm (suc seed) (m ∷ ms) = perm_append_comm ms (m ∷ [])

abbrev two_tests : List TestMetadata
two_tests = search ∷ login ∷ []

filter-login : matches filter login ≡ true
unfolding matches matches_any_glob glob_match scan testforge.Strings.Glob.round
filter-login = refl

filter-search : matches filter search ≡ false
unfolding matches matches_any_glob glob_match scan testforge.Strings.Glob.round
filter-search = refl

matches_iff_example : (matches filter login ≡ true) ↔ Admits filter login
matches_iff_example = matches_iff filter login

shards_partition_example :
    Perm
      (shards turn 1 two_tests everything options 2 2)
      (select turn 1 two_tests everything (record options { shard_count = pos 1 }))
shards_partition_example =
    shards_partition turn 1 turn-perm two_tests everything options 2 (omega arith)

mem-select_iff_example :
    Mem login (select turn 1 two_tests filter (record options { shard_count = pos 1 }))
    ↔ (Mem login two_tests × (matches filter login ≡ true))
mem-select_iff_example = mem-select_iff turn 1 turn-perm two_tests filter options login

abbrev other_order : List TestMetadata
other_order = login ∷ search ∷ []

names-Nodup : Nodup (map qualified_name two_tests)
unfolding qualified_name
names-Nodup =
    Nodup-cons.1
      (λ m. not-mem-nil (mem_of_ne_of_mem differ m), Nodup-cons.1 (not-mem-nil, Nodup-nil))
  where
    differ : codes "web.search" ≢ codes "auth.login"
    differ e = ground arith

select-perm-eq_example :
    select turn 1 two_tests everything options ≡ select turn 1 other_order everything options
select-perm-eq_example =
    select-perm-eq turn 1 two_tests other_order everything options (Perm.swap login search [])
      names-Nodup
