-- ===== src/Classifier/Messages.antt =====
-- Classification of a message by its text (src/execution/FailureClassifier.cpp).
use testforge.Base.{ap, All, List, refl, [], false, true, ◌++◌, ◌∷◌, ◌∙◌, ◌≡◌, Bytes, arith}
use testforge.Classifier.{message_signals, from_message, first_signal}
use testforge.Status.{unknown, FailureCategory}
use testforge.Strings.Search.{contains_iff, Occurs, contains}
use testforge.Strings.Case.{to_lower}

abbrev Lacks : Bytes → List (Bytes × FailureCategory) → Type 0
Lacks lowered = All (λ p. contains lowered p.0 ≡ false)

first_signal-unknown :
    (lowered : Bytes) (ps : List (Bytes × FailureCategory))
    → Lacks lowered ps
    → first_signal lowered ps ≡ unknown
unfolding first_signal
first_signal-unknown lowered [] h = refl
first_signal-unknown lowered ((n, c) ∷ ps) (h, hs) =
    ground (arith, first_signal-unknown lowered ps hs)

first_signal-append :
    (lowered needle : Bytes) (c : FailureCategory) (before after : List (Bytes × FailureCategory))
    → Lacks lowered before
    → contains lowered needle ≡ true
    → first_signal lowered (before ++ (needle, c) ∷ after) ≡ c
unfolding first_signal
first_signal-append lowered needle c [] after h hit = ground arith
first_signal-append lowered needle c ((n, d) ∷ before) after (h, hs) hit =
    ground (arith, first_signal-append lowered needle c before after hs hit)

-- A message takes the category of the first signal of the table that occurs in it, whatever the case
-- of its letters, also if signals of other categories follow.
pub from_message_first :
    (message needle : Bytes) (c : FailureCategory) (before after : List (Bytes × FailureCategory))
    → message_signals ≡ before ++ (needle, c) ∷ after
    → All (λ p. contains (to_lower message) p.0 ≡ false) before
    → Occurs needle (to_lower message)
    → from_message message ≡ c
unfolding from_message
from_message_first message needle c before after table none_before hit =
    ap (first_signal (to_lower message)) table
    ∙ first_signal-append (to_lower message) needle c before after none_before
        ((contains_iff needle (to_lower message)).1 hit)

-- A message in which no signal occurs stays unclassified.
pub from_message_unknown :
    (message : Bytes)
    → All (λ p. contains (to_lower message) p.0 ≡ false) message_signals
    → from_message message ≡ unknown
unfolding from_message
from_message_unknown message h = first_signal-unknown (to_lower message) message_signals h
