-- ===== src/Strings/Pieces.antt =====
-- Cutting a text at a delimiter and joining the pieces (src/core/StringUtils.cpp: split, splitLines,
-- join).
use testforge.Base.{
  append-nil, inr, inl, if_both, Option-cases, ap, ◌∙◌, ◌<◌, length, not, Option, All, map,
  is_empty, if_cases, Bool, suc, zero, refl, some, none, [], false, ◌++◌, ◌∷◌, ◌||◌, ◌≡◌,
  if◌then◌else◌, ◌==◌, Bytes, List, ℕ, arith,
}

-- `text.find(delimiter, start)` with the piece in front of it; the second part is what stands behind
-- the delimiter, if there is one.
unfoldable pub cut : ℕ → Bytes → Bytes × Option Bytes
cut d [] = ([], none)
cut d (c ∷ s) = let later = cut d s in if c == d then ([], some s) else (c ∷ later.0, later.1)

-- The loop of `split`, on what stands from `start` on.
unfoldable split_from : ℕ → ℕ → Bool → Bytes → List Bytes
unfolding cut
split_from zero d skip_empty text = []
split_from (suc fuel) d skip_empty text =
    let parts = cut d text in
    let others : List Bytes = elim parts.1 [
      | none ↦ []
      | some rest ↦ split_from fuel d skip_empty rest
    ] in
    if not skip_empty || not (is_empty parts.0) then parts.0 ∷ others else others

-- A text of n bytes has at most n + 1 pieces.
unfoldable pub split : Bytes → ℕ → Bool → List Bytes
unfolding split_from
split text d skip_empty = split_from (suc (length text)) d skip_empty text

unfoldable strip_return : Bytes → Bytes
strip_return [] = []
strip_return (c ∷ []) = if c == 13 then [] else c ∷ []
strip_return (c ∷ d ∷ s) = c ∷ strip_return (d ∷ s)

-- `lines.pop_back()` of an empty last line.
unfoldable pop_empty : List Bytes → List Bytes
pop_empty [] = []
pop_empty (l ∷ []) = if is_empty l then [] else l ∷ []
pop_empty (l ∷ m ∷ ls) = l ∷ pop_empty (m ∷ ls)

unfoldable pub split_lines : Bytes → List Bytes
unfolding split strip_return pop_empty
split_lines text = pop_empty (map strip_return (split text 10 false))

unfoldable join_others : List Bytes → Bytes → Bytes
join_others [] separator = []
join_others (p ∷ ps) separator = separator ++ (p ++ join_others ps separator)

unfoldable pub join : List Bytes → Bytes → Bytes
unfolding join_others
join [] separator = []
join (p ∷ ps) separator = p ++ join_others ps separator

abbrev pub Lacks : ℕ → Bytes → Type 0
Lacks d = All λ c. (c == d) ≡ false

cut-Lacks : (d : ℕ) (s : Bytes) → Lacks d (cut d s).0
unfolding cut
cut-Lacks d [] = tt
cut-Lacks d (c ∷ s) =
    if_cases (λ (p : Bytes × Option Bytes). Lacks d p.0) (c == d) _ _ (λ _. tt)
      (λ ne. (ne, cut-Lacks d s))

-- What was cut, put together again.
abbrev mend : ℕ → Bytes → Option Bytes → Bytes
mend d piece none = piece
mend d piece (some rest) = piece ++ d ∷ rest

mend-cons : (d c : ℕ) (piece : Bytes) (o : Option Bytes) → mend d (c ∷ piece) o ≡ c ∷ mend d piece o
mend-cons d c piece none = refl
mend-cons d c piece (some rest) = refl

mend-cut : (d : ℕ) (s : Bytes) → mend d (cut d s).0 (cut d s).1 ≡ s
unfolding cut
mend-cut d [] = refl
mend-cut d (c ∷ s) =
    if_cases (λ (p : Bytes × Option Bytes). mend d p.0 p.1 ≡ c ∷ s) (c == d) _ _
      (λ e. ground (arith, e))
      (λ _. mend-cons d c (cut d s).0 (cut d s).1 ∙ ap (λ t. c ∷ t) (mend-cut d s))

cut-shorter : (d : ℕ) (s rest : Bytes) → (cut d s).1 ≡ some rest → length rest < length s
unfolding cut
cut-shorter d [] rest = λ h. cc
cut-shorter d (c ∷ s) rest =
    if_cases (λ (p : Bytes × Option Bytes). p.1 ≡ some rest → length rest < length (c ∷ s)) (c == d)
      _ _ (λ _ e. let same : s ≡ rest = cc in omega (arith, ap length same))
      (λ _ e. omega (arith, cut-shorter d s rest e))

abbrev others_of : ℕ → ℕ → Bool → Option Bytes → List Bytes
others_of fuel d skip_empty o = elim o [ none ↦ [] | some rest ↦ split_from fuel d skip_empty rest ]

join_others-split_from :
    (fuel d : ℕ) (s : Bytes)
    → length s < fuel
    → join_others (split_from fuel d false s) (d ∷ [])
      ≡ d ∷ join (split_from fuel d false s) (d ∷ [])
unfolding split_from join
join_others-split_from zero d s h = absurd (omega arith)
join_others-split_from (suc fuel) d s h = refl

-- The loop with enough fuel puts out at least one piece, and the pieces make the text.
join-split_from :
    (fuel d : ℕ) (s : Bytes) → length s < fuel → join (split_from fuel d false s) (d ∷ []) ≡ s
unfolding split_from join
join-split_from zero d s h = absurd (omega arith)
join-split_from (suc fuel) d s h =
    let whole = mend-cut d s in
    elim (Option-cases (cut d s).1) [
      | inl e ↦ rw e (append-nil (cut d s).0 ∙ (rw e at whole))
      | inr (rest, e) ↦
          let enough : length rest < fuel = omega (arith, cut-shorter d s rest e) in
          rw (e, join_others-split_from fuel d rest enough, join-split_from fuel d rest enough)
            (rw e at whole)
    ]

-- Joining the pieces by the delimiter gives the text back.
pub join-split : (text : Bytes) (d : ℕ) → join (split text d false) (d ∷ []) ≡ text
unfolding split
join-split text d = join-split_from (suc (length text)) d text (omega arith)

split_from-Lacks :
    (fuel d : ℕ) (skip_empty : Bool) (s : Bytes) → All (Lacks d) (split_from fuel d skip_empty s)
unfolding split_from
split_from-Lacks zero d skip_empty s = tt
split_from-Lacks (suc fuel) d skip_empty s =
    let others : All (Lacks d) (others_of fuel d skip_empty (cut d s).1) =
      elim (cut d s).1 as (λ o. All (Lacks d) (others_of fuel d skip_empty o)) [
        | none ↦ tt
        | some rest ↦ split_from-Lacks fuel d skip_empty rest
      ] in
    if_both (All (Lacks d)) (not skip_empty || not (is_empty (cut d s).0)) _ _
      (cut-Lacks d s, others) others

-- No piece has the delimiter in it.
pub split-Lacks :
    (text : Bytes) (d : ℕ) (skip_empty : Bool) → All (Lacks d) (split text d skip_empty)
unfolding split
split-Lacks text d skip_empty = split_from-Lacks (suc (length text)) d skip_empty text
