-- ===== src/Examples/Arguments.antt =====
-- Tests of the command line.
use testforge.Base.{
  lt_bytes, some, codes, eq_bytes, All, any, Bytes, pos, refl, [], true, ◌∷◌, ◌≡◌, ◌<◌, ◌^◌, ◌-◌,
  ◌≤ℤ◌, List,
}
use testforge.CommandLine.{parse_arguments}
use testforge.CommandLine.Selected.{filter_from, selection_from_bounds, selection_from}
use testforge.CommandLine.Options.{is_known}
use testforge.StringMap.{insert, lookup}
use testforge.CommandLine.Known.{parse-IsKnown}

abbrev arguments : List Bytes
arguments =
    codes "run"
    ∷ codes "--shards=3"
    ∷ codes "--shard"
    ∷ codes "2"
    ∷ codes "--tag"
    ∷ codes "api, smoke"
    ∷ codes "--fail-fast"
    ∷ codes "health"
    ∷ []

abbrev misspelt : List Bytes
misspelt = codes "run" ∷ codes "--sutie" ∷ codes "smoke" ∷ []

parse_misspelt :
    (parse_arguments misspelt).error
    ≡ some (
        codes
          "unknown option '--sutie' for command 'run'\nRun 'testforge run --help' to see the options.")
unfolding parse_arguments any eq_bytes lookup
parse_misspelt = refl

parsed_tags : (filter_from (parse_arguments arguments)).tags ≡ codes "api" ∷ codes "smoke" ∷ []
unfolding parse_arguments any eq_bytes lookup filter_from insert lt_bytes
parsed_tags = refl

parsed_shards : (selection_from (parse_arguments arguments)).shard_count ≡ pos 3
unfolding parse_arguments any eq_bytes lookup selection_from insert lt_bytes
parsed_shards = refl

parse-IsKnown_example :
    let p = parse_arguments arguments in
    All (λ (e : Bytes × List Bytes). is_known p.command e.0 ≡ true) p.options
parse-IsKnown_example = parse-IsKnown arguments

selection_from_bounds_example :
    let o = selection_from (parse_arguments arguments) in
    (pos 1 ≤ℤ o.shard_count)
    × (pos 0 ≤ℤ o.shard_index)
    × (o.shard_count ≤ℤ pos (2 ^ 31 - 1))
    × (o.shard_index ≤ℤ pos (2 ^ 31 - 1))
    × (o.seed < 2 ^ 64)
selection_from_bounds_example = selection_from_bounds (parse_arguments arguments)
