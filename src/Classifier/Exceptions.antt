-- ===== src/Classifier/Exceptions.antt =====
-- Classification of an exception (src/execution/FailureClassifier.cpp).
use testforge.Base.{
  append_assoc, append-nil, codes, Bool-cases, Bytes, ℕ, Bool, inr, inl, refl, [], false, true,
  ◌++◌, ◌∷◌, ◌⊎◌, ◌≢◌, ◌≡◌, arith,
}
use testforge.Classifier.{
  std_exception, bad_alloc, forge_error, assertion, test_cancelled, what_of, skip_test, has_break,
  with_type, from_exception, Exception, first_line,
}
use testforge.Status.{
  resource_failure, unknown, assertion_failure, failed, error, no_failure, timeout, skipped,
  timed_out, TestStatus, FailureCategory,
}

first_line-has_break : (s : Bytes) → has_break (first_line s) ≡ false
unfolding first_line has_break
first_line-has_break [] = refl
first_line-has_break (c ∷ s) = ground (arith, first_line-has_break s)

first_line-whole : (s : Bytes) → has_break s ≡ false → first_line s ≡ s
unfolding first_line has_break
first_line-whole [] h = refl
first_line-whole (c ∷ s) h = ground (arith, first_line-whole s)

-- How the status of a classified exception follows from the exception, its category being that of
-- the exception's type where TestForge threw it.
abbrev pub StatusOf : Exception → TestStatus → FailureCategory → Type 0
StatusOf (skip_test w) s c = (s ≡ skipped) × (c ≡ no_failure)
StatusOf (test_cancelled w) s c = (s ≡ timeout) × (c ≡ timed_out)
StatusOf (assertion w d) s c = (s ≡ failed) × (c ≡ assertion_failure)
StatusOf (forge_error w k) s c =
    (c ≡ k) × (((k ≡ timed_out) × (s ≡ timeout)) ⊎ ((k ≢ timed_out) × (s ≡ error)))
StatusOf (bad_alloc w t) s c = (s ≡ error) × (c ≢ unknown)
StatusOf (std_exception w t) s c = s ≡ error

bad_alloc-ne-unknown :
    (c : FailureCategory) → elim c [ unknown ↦ resource_failure | k ↦ k ] ≢ unknown
bad_alloc-ne-unknown c = ground arith

forge-status :
    (k : FailureCategory)
    → ((k ≡ timed_out) × (elim k [ timed_out ↦ timeout | _ ↦ error ] ≡ timeout))
      ⊎ ((k ≢ timed_out) × (elim k [ timed_out ↦ timeout | _ ↦ error ] ≡ error))
forge-status timed_out = inl (refl, refl)
forge-status _ = inr (λ e. cc, refl)

-- A skip is no failure, a cancellation is a timeout, an assertion is the one exception that makes a
-- test failed, TestForge's other exceptions keep their category and are errors unless that is a
-- timeout, and those of the standard library are errors, running out of memory never unclassified.
pub from_exception-StatusOf :
    (e : Exception) → StatusOf e (from_exception e).status (from_exception e).category
unfolding from_exception
from_exception-StatusOf (skip_test w) = (refl, refl)
from_exception-StatusOf (test_cancelled w) = (refl, refl)
from_exception-StatusOf (assertion w d) = (refl, refl)
from_exception-StatusOf (forge_error w k) = (refl, forge-status k)
from_exception-StatusOf (bad_alloc w t) = (refl, bad_alloc-ne-unknown _)
from_exception-StatusOf (std_exception w t) = refl

abbrev pub is_assertion : Exception → Bool
is_assertion (assertion w d) = true
is_assertion _ = false

-- The message of a classified exception is one line; and if what the exception says is one line, it
-- is all of it.
pub from_exception-message :
    (e : Exception)
    → (has_break (from_exception e).message ≡ false)
      × ((has_break (what_of e) ≡ true) ⊎ ((from_exception e).message ≡ what_of e))
unfolding from_exception
from_exception-message e = by_type e
  where
    by_line :
        (w : Bytes)
        → (has_break (first_line w) ≡ false) × ((has_break w ≡ true) ⊎ (first_line w ≡ w))
    by_line w = elim (Bool-cases (has_break w)) [
      | inl h ↦ (first_line-has_break w, inl h)
      | inr h ↦ (first_line-has_break w, inr (first_line-whole w h))
    ]

    by_type :
        (x : Exception)
        → (has_break (from_exception x).message ≡ false)
          × ((has_break (what_of x) ≡ true) ⊎ ((from_exception x).message ≡ what_of x))
    by_type (skip_test w) = by_line w
    by_type (test_cancelled w) = by_line w
    by_type (assertion w d) = by_line w
    by_type (forge_error w k) = by_line w
    by_type (bad_alloc w t) = by_line w
    by_type (std_exception w t) = by_line w

with_type-append : (c : ℕ) (w t : Bytes) → (rest : Bytes) × (with_type (c ∷ w) t ≡ (c ∷ w) ++ rest)
unfolding with_type
with_type-append c w t = (b'\n' ∷ codes "exception type: " ++ t, simp append_assoc)

-- Nothing that an exception says in several lines is lost: its whole text opens the detail. (An
-- assertion has a detail of its own.)
pub from_exception-detail :
    (e : Exception)
    → has_break (what_of e) ≡ true
    → is_assertion e ≡ false
    → (rest : Bytes) × ((from_exception e).detail ≡ what_of e ++ rest)
unfolding from_exception
from_exception-detail (skip_test w) h k = ([], rw (h, append-nil))
from_exception-detail (test_cancelled w) h k = ([], rw (h, append-nil))
from_exception-detail (assertion w d) h k = cc
from_exception-detail (forge_error w c) h k = ([], rw (h, append-nil))
from_exception-detail (bad_alloc [] t) h k = cc
from_exception-detail (bad_alloc (c ∷ w) t) h k = rw h (with_type-append c w t)
from_exception-detail (std_exception [] t) h k = cc
from_exception-detail (std_exception (c ∷ w) t) h k = rw h (with_type-append c w t)
