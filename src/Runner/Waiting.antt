-- ===== src/Runner/Waiting.antt =====
-- Waiting for a bounded body (`awaitBoundedBody` and `OrphanReaper` of
-- src/execution/TestRunner.cpp).
pub mod Outcome
use testforge.Cancellation.{run}
use testforge.Base.{
  ap, ◌||◌, leb→le, Bool-cases, subst, inr, inl, refl, ◌⊎◌, ◌<◌, leb, Option, codes, not, ℤ, suc,
  zero, some, none, [], false, true, ◌++◌, ◌∷◌, ◌&&◌, ◌≡◌, ◌≤◌, ◌+◌, if◌then◌else◌, List, Bytes,
  Bool, ℕ, arith,
}
use testforge.Cancellation.{Operation, State, cancel}
use testforge.Decimal.{decimal}

-- What one round of the loop sees of the other threads and of the clock: the time, whether the body
-- has finished when the wait of this round ends, the run's source as the round reads it, and what
-- `cancelAllActive` did to the test's source since the round before.
pub record Tick : Type 0 where
  pub now : ℕ
  pub ready : Bool
  pub run_source : State
  pub meanwhile : List Operation

-- A cancellation of the run is forwarded to a test that is not cancelled yet.
unfoldable pub forward : State → State → State
unfolding cancel
forward run_source source =
    if run_source.cancelled && not source.cancelled then cancel run_source.reason source else source

-- The loop, from round `i` on, with fuel: whether the body completed, and the test's source.
unfoldable pub poll : (ℕ → Tick) → ℕ → ℕ → ℕ → State → Option (Bool × State)
unfolding forward run
poll ticks deadline zero i source = none
poll ticks deadline (suc fuel) i source =
    let tick = ticks i in
    let seen = run tick.meanwhile source in
    let rest = poll ticks deadline fuel (suc i) (forward tick.run_source seen) in
    if leb deadline tick.now
    then some (false, seen)
    else if tick.ready
    then some (true, seen)
    else rest

pub record BodyOutcome : Type 0 where
  pub completed : Bool
  pub deadline_exceeded : Bool

unfoldable pub deadline_reason : ℤ → Bytes
unfolding decimal
deadline_reason timeout_ms = codes "deadline of " ++ decimal timeout_ms ++ codes "ms exceeded"

-- `adopt`, by the names of the orphans.
unfoldable pub adopt : Bytes → List Bytes → List Bytes
adopt name orphans = orphans ++ name ∷ []

-- Behind the loop: the outcome, the test's source and the orphans. `ready_in_grace` says whether the
-- body finishes in the grace period.
unfoldable pub settle :
    Bool → ℤ → Bytes → List Bytes → Bool × State → BodyOutcome × (State × List Bytes)
unfolding cancel deadline_reason adopt
settle ready_in_grace timeout_ms name orphans (true, source) =
    (record { completed = true; deadline_exceeded = false }, (source, orphans))
settle ready_in_grace timeout_ms name orphans (false, source) = (
  record { completed = ready_in_grace; deadline_exceeded = true },
  (
    cancel (deadline_reason timeout_ms) source,
    (if ready_in_grace then orphans else adopt name orphans),
  ),
)

unfoldable pub await_bounded_body :
    ℕ
    → (ℕ → Tick)
    → ℕ
    → Bool
    → ℤ
    → Bytes
    → List Bytes
    → State
    → Option (BodyOutcome × (State × List Bytes))
unfolding poll settle
await_bounded_body fuel ticks deadline ready_in_grace timeout_ms name orphans source =
    elim (poll ticks deadline fuel 0 source) [
      | none ↦ none
      | some ended ↦ some (settle ready_in_grace timeout_ms name orphans ended)
    ]

-- `drain`: each orphan with whether its future becomes ready in what is left of the grace; the names
-- of those that do not.
unfoldable pub drain : List (Bytes × Bool) → List Bytes
drain [] = []
drain ((name, ready) ∷ orphans) = let stuck = drain orphans in if ready then stuck else name ∷ stuck
