-- ===== src/Cancellation.antt =====
-- Cooperative cancellation (include/testforge/core/CancellationToken.hpp,
-- src/core/CancellationToken.cpp): the shared state of a source and its tokens. Each operation holds
-- the state's mutex, so a history is a sequence of operations. A time is in nanoseconds of the steady
-- clock; `none` is `time_point::max()`.
use testforge.Base.{
  codes, is_empty, leb, refl, some, none, [], true, ◌∷◌, ◌≡◌, ◌/◌, ◌-◌, if◌then◌else◌, List, Option,
  ℕ, Bytes, false, Bool, arith,
}

pub record State : Type 0 where
  pub cancelled : Bool
  pub reason : Bytes
  pub deadline : Option ℕ

abbrev pub fresh : State
fresh = record { cancelled = false; reason = []; deadline = none }

-- `CancellationSource::cancel`: a state that is cancelled already keeps its reason.
unfoldable pub cancel : Bytes → State → State
cancel reason s = if s.cancelled then s else record s { reason = reason; cancelled = true }

unfoldable pub set_deadline : ℕ → State → State
set_deadline deadline s = record s { deadline = some deadline }

-- A token is `none` where it was made by the default constructor.
unfoldable pub is_cancelled : Option State → Bool
is_cancelled none = false
is_cancelled (some s) = s.cancelled

unfoldable pub reason_of : Option State → Bytes
reason_of none = []
reason_of (some s) = s.reason

-- `remaining` in milliseconds; `none` is `Milliseconds::max()`.
unfoldable pub remaining : ℕ → Option State → Option ℕ
remaining now none = none
remaining now (some s) = elim s.deadline [
  | none ↦ none
  | some deadline ↦ if leb deadline now then some 0 else some ((deadline - now) / 1000000)
]

-- `TestContext::throwIfCancelled`: the text of the `TestCancelled` that it throws, if it throws.
unfoldable pub throw_if_cancelled : Option State → Option Bytes
unfolding is_cancelled reason_of
throw_if_cancelled token =
    if is_cancelled token
    then some (if is_empty (reason_of token) then codes "cancelled" else reason_of token)
    else none

pub data Operation : Type 0 where
  cancels : Bytes → Operation
  sets_deadline : ℕ → Operation

unfoldable pub apply : Operation → State → State
unfolding cancel set_deadline
apply (cancels reason) s = cancel reason s
apply (sets_deadline d) s = set_deadline d s

unfoldable pub run : List Operation → State → State
unfolding apply
run [] s = s
run (o ∷ os) s = run os (apply o s)

-- The first reason of a history, and whether there is one.
abbrev pub first_reason : List Operation → Option Bytes
first_reason [] = none
first_reason (cancels r ∷ os) = some r
first_reason (sets_deadline d ∷ os) = first_reason os

-- A source that is cancelled stays cancelled, for the reason that it has.
pub run-keeps_reason :
    (os : List Operation) (s : State)
    → s.cancelled ≡ true
    → ((run os s).cancelled ≡ true) × ((run os s).reason ≡ s.reason)
unfolding run
run-keeps_reason [] s h = (h, refl)
run-keeps_reason (cancels r ∷ os) s h = ground (arith, run-keeps_reason os s h)
run-keeps_reason (sets_deadline d ∷ os) s h = run-keeps_reason os (record s { deadline = some d }) h

run-not_cancelled :
    (os : List Operation) (s : State)
    → s.cancelled ≡ false
    → ((run os s).cancelled ≡ elim (first_reason os) [ none ↦ false | some r ↦ true ])
      × ((run os s).reason ≡ elim (first_reason os) [ none ↦ s.reason | some r ↦ r ])
unfolding run
run-not_cancelled [] s h = (h, refl)
run-not_cancelled (cancels r ∷ os) s h =
    ground (arith, run-keeps_reason os (record s { reason = r; cancelled = true }))
run-not_cancelled (sets_deadline d ∷ os) s h =
    run-not_cancelled os (record s { deadline = some d }) h

-- After any history of a fresh source, it is cancelled exactly if a cancellation is in the history,
-- and its reason is that of the first one: no later cancellation and no deadline changes it.
pub run-first_reason :
    (os : List Operation)
    → ((run os fresh).cancelled ≡ elim (first_reason os) [ none ↦ false | some r ↦ true ])
      × ((run os fresh).reason ≡ elim (first_reason os) [ none ↦ [] | some r ↦ r ])
run-first_reason os = run-not_cancelled os fresh refl
