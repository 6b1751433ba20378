-- ===== src/Examples/Classification.antt =====
-- Tests of the failure classifier and of cancellation.
use testforge.Json.{set}
use testforge.Json.{find}
use testforge.Strings.Search.{contains}
use testforge.Base.{
  eq_bytes, if◌then◌else◌, some, All, codes, List, Bytes, pos, refl, [], false, true, ◌∷◌, ◌≡◌,
}
use testforge.Json.{end, integer, member, object, Value}
use testforge.Classifier.{
  message_signals, what_of, std_exception, has_break, Exception, specificity, refine,
}
use testforge.Strings.Search.{contains_iff, Occurs}
use testforge.Classifier.Exceptions.{is_assertion}
use testforge.Cancellation.{run-first_reason, sets_deadline, fresh, Operation, cancels, run, cancel}
use testforge.Status.{
  FailureCategory, application_failure, network_failure, timed_out, assertion_failure,
}
use testforge.Strings.Case.{to_lower}
use testforge.Classifier.Refine.{refine-fixed}
use testforge.Json.Objects.{find-set}

abbrev unavailable : Value
unavailable = object (member (codes "http_status") (integer (pos 503)) end)

refine-unavailable : refine assertion_failure unavailable ≡ application_failure
unfolding refine
refine-unavailable = refl

timed_out-specificity : specificity timed_out ≡ 4
unfolding specificity
timed_out-specificity = refl

refine-fixed_example : refine timed_out unavailable ≡ timed_out
refine-fixed_example = refine-fixed timed_out unavailable timed_out-specificity

abbrev reset : Bytes
reset = codes "Connection RESET by peer: timed out"

reset-before :
    All
      (λ (p : Bytes × FailureCategory). contains (to_lower reset) p.0 ≡ false)
      ((codes "connection refused", network_failure) ∷ [])
unfolding contains to_lower
reset-before = (refl, tt)

reset-contains : contains (to_lower reset) (codes "connection reset") ≡ true
unfolding contains to_lower
reset-contains = refl

reset-Occurs : Occurs (codes "connection reset") (to_lower reset)
reset-Occurs = (contains_iff (codes "connection reset") (to_lower reset)).0 reset-contains

abbrev odd : Bytes
odd = codes "value was odd"

odd-Lacks : All (λ p. contains (to_lower odd) p.0 ≡ false) message_signals
unfolding contains to_lower
odd-Lacks = (
  refl,
  (
    refl,
    (
      refl,
      (
        refl,
        (
          refl,
          (
            refl,
            (
              refl,
              (
                refl,
                (
                  refl,
                  (
                    refl,
                    (
                      refl,
                      (
                        refl,
                        (
                          refl,
                          (
                            refl,
                            (refl, (refl, (refl, (refl, (refl, (refl, (refl, (refl, tt)))))))),
                          ),
                        ),
                      ),
                    ),
                  ),
                ),
              ),
            ),
          ),
        ),
      ),
    ),
  ),
)

abbrev two_lines : Exception
two_lines = std_exception (codes "timed out\nwhile reading") (codes "std::runtime_error")

two_lines-has_break : has_break (what_of two_lines) ≡ true
unfolding has_break what_of
two_lines-has_break = refl

two_lines-is_assertion : is_assertion two_lines ≡ false
two_lines-is_assertion = refl

cancelled-first : (cancel (codes "first") fresh).cancelled ≡ true
unfolding cancel
cancelled-first = refl

abbrev history : List Operation
history = sets_deadline 5 ∷ cancels (codes "first") ∷ cancels (codes "second") ∷ []

run-first_reason_example :
    ((run history fresh).cancelled ≡ true) × ((run history fresh).reason ≡ codes "first")
run-first_reason_example = run-first_reason history

abbrev answered : Value
answered = object (member (codes "http_status") (integer (pos 200)) end)

answered-set : set (codes "http_status") (integer (pos 200)) unavailable ≡ some answered
unfolding set
answered-set = refl

find-set_example : find (codes "http_status") answered ≡ (
    if eq_bytes (codes "http_status") (codes "http_status")
    then some (integer (pos 200))
    else find (codes "http_status") unavailable)
find-set_example =
    find-set (codes "http_status") (codes "http_status") (integer (pos 200)) unavailable answered
      answered-set
