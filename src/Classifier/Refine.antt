-- ===== src/Classifier/Refine.antt =====
-- Refinement by recorded facts (src/execution/FailureClassifier.cpp).
use testforge.Base.{
  ap, codes, ◌∙◌, if◌then◌else◌, ℤ, pos, ltb_ℤ, ◌≤◌, ◌≡◌, refl, Bool, true, false, Option, none,
  some, [], ◌∷◌, arith,
}
use testforge.Status.{unknown, FailureCategory, application_failure, dependency_failure}
use testforge.Json.{find, Value, string, as_int}
use testforge.Classifier.{
  refine, by_error_hint, specificity, from_message, promote, by_http_status, by_message,
  by_missing_dependency,
}

specificity-le : (c : FailureCategory) → specificity c ≤ 4
unfolding specificity
specificity-le c = ground arith

-- A step of the refinement: it never goes down, and a category at least as specific as its result
-- passes through it unchanged.
record IsStep (f : FailureCategory → FailureCategory) : Type 0 where
  up : (b : FailureCategory) → specificity b ≤ specificity (f b)
  absorbs : (b r : FailureCategory) → specificity (f b) ≤ specificity r → f r ≡ r

id-IsStep : IsStep (λ b. b)
id-IsStep = record { up = λ b. omega arith; absorbs = λ b r h. refl }

promote-IsStep : (c : FailureCategory) → IsStep (λ b. promote b c)
unfolding promote
promote-IsStep c = record { up = λ b. ground arith; absorbs = λ b r h. ground arith }

http_status-IsStep : (v : Option Value) → IsStep (by_http_status v)
unfolding by_http_status
http_status-IsStep none = id-IsStep
http_status-IsStep (some v) = by_code (as_int v)
  where
    by_code :
        (n : Option ℤ)
        → IsStep λ b. elim n [
          | none ↦ b
          | some code ↦ if ltb_ℤ code (pos 500) then b else promote b application_failure
        ]
    by_code none = id-IsStep
    by_code (some code) = by_test (ltb_ℤ code (pos 500))
      where
        by_test : (t : Bool) → IsStep λ b. if t then b else promote b application_failure
        by_test true = id-IsStep
        by_test false = promote-IsStep application_failure

message-IsStep : (v : Option Value) → IsStep (by_message v)
unfolding by_message
message-IsStep (some (string text)) = promote-IsStep (from_message text)
message-IsStep _ = id-IsStep

missing_dependency-IsStep : (v : Option Value) → IsStep (by_missing_dependency v)
unfolding by_missing_dependency
missing_dependency-IsStep (some (string [])) = id-IsStep
missing_dependency-IsStep (some (string (c ∷ s))) = promote-IsStep dependency_failure
missing_dependency-IsStep _ = id-IsStep

compose-IsStep :
    {f g : FailureCategory → FailureCategory} → IsStep f → IsStep g → IsStep (λ b. g (f b))
compose-IsStep {f} {g} sf sg = record {
  up = λ b. omega (arith, sf.up b, sg.up (f b));
  absorbs = λ b r h.
      let e : f r ≡ r = sf.absorbs b r (omega (arith, sg.up (f b))) in rw e (sg.absorbs (f b) r h);
}

-- The three pieces of evidence that are always read.
evidence : Value → FailureCategory → FailureCategory
evidence metadata b = by_missing_dependency (find (codes "missing_dependency") metadata) (
    by_message (find (codes "transport_error") metadata)
      (by_http_status (find (codes "http_status") metadata) b))

evidence-IsStep : (metadata : Value) → IsStep (evidence metadata)
unfolding evidence
evidence-IsStep metadata =
    compose-IsStep (compose-IsStep (http_status-IsStep _) (message-IsStep _))
      (missing_dependency-IsStep _)

hint-up : (v : Option Value) (b : FailureCategory) → specificity b ≤ specificity (by_error_hint v b)
unfolding by_error_hint
hint-up v unknown = (message-IsStep v).up unknown
hint-up v _ = omega arith

hint_idem :
    (v : Option Value) (b : FailureCategory)
    → by_error_hint v (by_error_hint v b) ≡ by_error_hint v b
unfolding by_error_hint
hint_idem v unknown = by_result (by_message v unknown) refl
  where
    by_result : (r : FailureCategory) → by_message v unknown ≡ r → by_error_hint v r ≡ r
    by_result unknown e = e
    by_result _ e = refl
hint_idem v _ = refl

hint-fixed : (v : Option Value) (b : FailureCategory) → specificity b ≡ 4 → by_error_hint v b ≡ b
unfolding by_error_hint specificity
hint-fixed v unknown h = absurd (omega arith)
hint-fixed v _ h = refl

-- A refined category is never less specific than the category it refines.
pub refine-specificity :
    (base : FailureCategory) (metadata : Value)
    → specificity base ≤ specificity (refine base metadata)
unfolding refine evidence
refine-specificity base metadata = omega (
  arith,
  (evidence-IsStep metadata).up base,
  hint-up (find (codes "error_hint") metadata) (evidence metadata base),
)

-- Refining by the same facts a second time changes nothing.
pub refine_idem :
    (base : FailureCategory) (metadata : Value)
    → refine (refine base metadata) metadata ≡ refine base metadata
unfolding refine evidence
refine_idem base metadata =
    let r = refine base metadata in
    let hint = find (codes "error_hint") metadata in
    let e : evidence metadata r ≡ r =
      (evidence-IsStep metadata).absorbs base r (hint-up hint (evidence metadata base)) in
    ap (by_error_hint hint) e ∙ hint_idem hint (evidence metadata base)

-- A deadline, a configuration failure and a framework error are the most specific: no fact that the
-- test recorded can reclassify them.
pub refine-fixed :
    (base : FailureCategory) (metadata : Value) → specificity base ≡ 4 → refine base metadata ≡ base
unfolding refine evidence
refine-fixed base metadata h =
    let kept : evidence metadata base ≡ base =
      (evidence-IsStep metadata).absorbs base base
        (omega (arith, specificity-le (evidence metadata base))) in
    ap (by_error_hint (find (codes "error_hint") metadata)) kept
    ∙ hint-fixed (find (codes "error_hint") metadata) base h
