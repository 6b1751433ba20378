-- ===== src/CommandLine/Selected.antt =====
-- Reading the options, and the filter and the selection that they ask for
-- (src/cli/CommandLine.cpp: ParsedCommand::has to ParsedCommand::flag, CommandLine::filterFrom,
-- CommandLine::selectionFrom).
use testforge.Base.{
  leb, ltb→lt, if_cases, ◌≤ℤ◌, sub_ℕ, ltb, codes, Bool, is_empty, ℕ, List, ltb_ℤ, negsuc, pos, some,
  none, [], false, true, ◌++◌, ◌∷◌, ◌<◌, ◌^◌, ◌%◌, ◌-◌, if◌then◌else◌, ℤ, Bytes, arith,
}
use testforge.StringMap.{lookup}
use testforge.CommandLine.{ParsedCommand, values_of}
use testforge.Strings.Case.{trim}
use testforge.Strings.Pieces.{split}
use testforge.Strings.Reading.{parse_bool, parse_int}
use testforge.Selector.{SelectionOptions, TestFilter}

unfoldable pub has : Bytes → ParsedCommand → Bool
unfolding lookup
has name p = elim (lookup name p.options) [ none ↦ false | some vs ↦ true ]

-- `found->second.back()`, and the fallback where there is none.
unfoldable pub last_or : Bytes → List Bytes → Bytes
last_or fallback [] = fallback
last_or fallback (v ∷ []) = v
last_or fallback (v ∷ w ∷ vs) = last_or fallback (w ∷ vs)

unfoldable pub value : Bytes → Bytes → ParsedCommand → Bytes
unfolding values_of last_or
value name fallback p = last_or fallback (values_of name p.options)

-- The pieces of one occurrence.
unfoldable pub trimmed_pieces : List Bytes → List Bytes
unfolding trim
trimmed_pieces [] = []
trimmed_pieces (piece ∷ pieces) =
    let others = trimmed_pieces pieces in
    if is_empty (trim piece) then others else trim piece ∷ others

unfoldable pub all_pieces : List Bytes → List Bytes
unfolding split trimmed_pieces
all_pieces [] = []
all_pieces (raw ∷ raws) = trimmed_pieces (split raw b',' true) ++ all_pieces raws

unfoldable pub values : Bytes → ParsedCommand → List Bytes
unfolding values_of all_pieces
values name p = all_pieces (values_of name p.options)

unfoldable pub int64_value : Bytes → ℤ → ParsedCommand → ℤ
unfolding value parse_int
int64_value name fallback p =
    let raw = value name [] p in
    if is_empty raw then fallback else elim (parse_int raw) [ none ↦ fallback | some n ↦ n ]

-- `static_cast<int>` and `static_cast<std::uint64_t>` of a `std::int64_t`: the low bits are kept.
unfoldable pub to_int32 : ℤ → ℤ
to_int32 n =
    let low : ℕ = elim n [ pos k ↦ k % 2 ^ 32 | negsuc k ↦ 2 ^ 32 - 1 - k % 2 ^ 32 ] in
    if ltb low (2 ^ 31) then pos low else sub_ℕ low (2 ^ 32)

unfoldable pub to_uint64 : ℤ → ℕ
to_uint64 (pos k) = k % 2 ^ 64
to_uint64 (negsuc k) = 2 ^ 64 - 1 - k % 2 ^ 64

unfoldable pub int_value : Bytes → ℤ → ParsedCommand → ℤ
unfolding int64_value to_int32
int_value name fallback p = to_int32 (int64_value name fallback p)

-- An option without a value, or with one that is no switch, is on.
unfoldable pub flag : Bytes → Bool → ParsedCommand → Bool
unfolding lookup last_or parse_bool
flag name fallback p = elim (lookup name p.options) [
  | none ↦ fallback
  | some vs ↦
      if is_empty vs then true else elim (parse_bool (last_or [] vs)) [ none ↦ true | some b ↦ b ]
]

unfoldable pub filter_from : ParsedCommand → TestFilter
unfolding values flag
filter_from p = record {
  suites = values (codes "suite") p;
  names = values (codes "test") p ++ p.positionals;
  tags = values (codes "tag") p;
  exclude_tags = values (codes "exclude-tag") p;
  exclude_suites = values (codes "exclude-suite") p;
  include_disabled = flag (codes "include-disabled") false p;
}

-- `std::max` of an int and a bound.
unfoldable pub at_least : ℤ → ℤ → ℤ
at_least bound n = if ltb_ℤ bound n then n else bound

unfoldable pub selection_from : ParsedCommand → SelectionOptions
unfolding flag int64_value to_uint64 int_value at_least
selection_from p = record {
  shuffle = flag (codes "shuffle") false p;
  seed = to_uint64 (int64_value (codes "seed") (pos 0) p);
  shard_count = at_least (pos 1) (int_value (codes "shards") (pos 1) p);
  shard_index = at_least (pos 0) (int_value (codes "shard") (pos 0) p);
}

-- From the low 32 bits to the `int` that they are.
signed_of : ℕ → ℤ
signed_of low = if ltb low (2 ^ 31) then pos low else sub_ℕ low (2 ^ 32)

abbrev IsInt32 : ℤ → Type 0
IsInt32 (pos n) = n < 2 ^ 31
IsInt32 (negsuc n) = n < 2 ^ 31

signed_of-IsInt32 : (low : ℕ) → low < 2 ^ 32 → IsInt32 (signed_of low)
unfolding signed_of
signed_of-IsInt32 low h =
    if_cases IsInt32 (ltb low (2 ^ 31)) _ _ (λ e. ltb→lt low (2 ^ 31) e)
      (λ e. if_cases IsInt32 (leb (2 ^ 32) low) _ _ (λ f. ground arith) (λ f. ground arith))

to_int32-IsInt32 : (n : ℤ) → IsInt32 (to_int32 n)
unfolding to_int32 signed_of
to_int32-IsInt32 (pos k) = signed_of-IsInt32 (k % 2 ^ 32) (omega arith)
to_int32-IsInt32 (negsuc k) = signed_of-IsInt32 (2 ^ 32 - 1 - k % 2 ^ 32) (omega arith)

at_least-between :
    (bound : ℕ) (n : ℤ)
    → bound < 2 ^ 31
    → IsInt32 n
    → (pos bound ≤ℤ at_least (pos bound) n) × (at_least (pos bound) n ≤ℤ pos (2 ^ 31 - 1))
unfolding at_least
at_least-between bound (pos n) b h =
    if_cases (λ (r : ℤ). (pos bound ≤ℤ r) × (r ≤ℤ pos (2 ^ 31 - 1))) (ltb_ℤ (pos bound) (pos n)) _ _
      (λ e. (ground arith, ground arith)) (λ e. (omega arith, omega arith))
at_least-between bound (negsuc n) b h =
    if_cases (λ (r : ℤ). (pos bound ≤ℤ r) × (r ≤ℤ pos (2 ^ 31 - 1))) (ltb_ℤ (pos bound) (negsuc n))
      _ _ (λ e. ground arith) (λ e. (omega arith, omega arith))

to_uint64_bound : (n : ℤ) → to_uint64 n < 2 ^ 64
unfolding to_uint64
to_uint64_bound (pos k) = omega arith
to_uint64_bound (negsuc k) = omega arith

-- Whatever the options say, a selection has at least one shard, an index that is not negative, both
-- of them within an int, and a seed of 64 bits.
pub selection_from_bounds :
    (p : ParsedCommand)
    → let o = selection_from p in
      (pos 1 ≤ℤ o.shard_count)
      × (pos 0 ≤ℤ o.shard_index)
      × (o.shard_count ≤ℤ pos (2 ^ 31 - 1))
      × (o.shard_index ≤ℤ pos (2 ^ 31 - 1))
      × (o.seed < 2 ^ 64)
unfolding selection_from
selection_from_bounds p =
    let count =
      at_least-between 1 (int_value (codes "shards") (pos 1) p) (omega arith)
        (unfold int_value in to_int32-IsInt32 (int64_value (codes "shards") (pos 1) p)) in
    let index =
      at_least-between 0 (int_value (codes "shard") (pos 0) p) (omega arith)
        (unfold int_value in to_int32-IsInt32 (int64_value (codes "shard") (pos 0) p)) in
    (count.0, index.0, count.1, index.1, to_uint64_bound _)
