-- ===== src/ThreadPool/Drain.antt =====
-- What is true of the tasks when all workers have left (src/execution/ThreadPool.cpp).
use testforge.Base.{
  append-nil, ap, ap₂, subst, length, All, refl, some, [], false, true, ◌++◌, ◌∷◌, ◌∙◌, ◌≡◌, ◌≤◌, ℕ,
  List, arith,
}
use testforge.ThreadPool.{
  shuts_down_now, shuts_down, finish, finishes, wake, wakes, shutdown_now, shutdown, waiting,
  running, submit, next, exited, submits, start, create, Step, Reach, Worker, Pool,
}
use testforge.ThreadPool.Workers.{has_exited, in_hand}
use mathlib.Core.List.{Perm}
use testforge.ThreadPool.Invariant.{Reach-IsPool, places}

abbrev pub AllExited : List Worker → Type 0
AllExited = All (λ w. w ≡ exited)

exited-in_hand : (ws : List Worker) → AllExited ws → in_hand ws ≡ []
exited-in_hand [] h = refl
exited-in_hand (waiting ∷ ws) (h, hs) = cc
exited-in_hand (running t ∷ ws) (h, hs) = cc
exited-in_hand (exited ∷ ws) (h, hs) = exited-in_hand ws hs

exited-has_exited : (ws : List Worker) → 1 ≤ length ws → AllExited ws → has_exited ws ≡ true
exited-has_exited [] n h = absurd (omega arith)
exited-has_exited (waiting ∷ ws) n (h, hs) = cc
exited-has_exited (running t ∷ ws) n (h, hs) = cc
exited-has_exited (exited ∷ ws) n h = refl

-- Once all workers have left, nothing is queued, nothing is pending, nobody waits for a task for
-- ever, and every task submitted was executed or discarded, once.
pub Reach-joined :
    (workers : ℕ) {p : Pool}
    → Reach (create workers) p
    → AllExited p.workers
    → (p.tasks ≡ []) × (p.pending ≡ 0) × Perm (p.executed ++ p.discarded) p.submitted
Reach-joined workers {p} r gone =
    let v = Reach-IsPool workers r in
    let idle : in_hand p.workers ≡ [] = exited-in_hand p.workers gone in
    let empty : p.tasks ≡ [] = (v.drained (exited-has_exited p.workers v.staffed gone)).1 in
    (
      empty,
      omega (arith, v.counted, ap length idle, ap length empty),
      all_placed idle empty v.accounted,
    )
  where
    all_placed :
        in_hand p.workers ≡ []
        → p.tasks ≡ []
        → Perm (places p) p.submitted
        → Perm (p.executed ++ p.discarded) p.submitted
    all_placed idle empty a = subst (λ xs. Perm xs p.submitted) (short idle empty) a
      where
        short : in_hand p.workers ≡ [] → p.tasks ≡ [] → places p ≡ p.executed ++ p.discarded
        short i e =
            ap₂ (λ xs ys. p.executed ++ (p.discarded ++ (xs ++ ys))) i e
            ∙ ap (◌++◌ p.executed) (append-nil p.discarded)

-- A history in which nobody calls `shutdownNow`.
pub data Gracefully (p : Pool) : Pool → Type 0 where
  begin : Gracefully p p
  later : {q r : Pool} → Gracefully p q → Step q r → r.discard_queued ≡ false → Gracefully p r

pub Gracefully-Reach : {p q : Pool} → Gracefully p q → Reach p q
Gracefully-Reach begin = start
Gracefully-Reach (later g s h) = next (Gracefully-Reach g) s

-- A step from a pool that keeps its queue discards nothing.
Step-discarded : {p q : Pool} → Step p q → p.discard_queued ≡ false → q.discarded ≡ p.discarded
Step-discarded {p} (submits task {q} e) h = unfold submit in ground arith
Step-discarded shuts_down h = unfold shutdown in refl
Step-discarded shuts_down_now h = unfold shutdown_now in refl
Step-discarded {p} (wakes i {q} w e) h = wake-discarded i p q p.tasks refl e h
  where
    wake-discarded :
        (j : ℕ) (a b : Pool) (ts : List ℕ)
        → a.tasks ≡ ts
        → wake j a ≡ some b
        → a.discard_queued ≡ false
        → b.discarded ≡ a.discarded
    wake-discarded j a b [] t k d = unfold wake in ground arith
    wake-discarded j a b (x ∷ ts) t k d = unfold wake in ground arith
Step-discarded (finishes i task w) h = unfold finish in refl

Gracefully-discarded :
    (workers : ℕ) {p : Pool}
    → Gracefully (create workers) p
    → (p.discard_queued ≡ false) × (p.discarded ≡ [])
Gracefully-discarded workers begin = unfold create in (refl, refl)
Gracefully-discarded workers (later g s h) =
    let (kept, none_lost) = Gracefully-discarded workers g in (h, Step-discarded s kept ∙ none_lost)

-- A pool that is shut down but never told to discard its queue runs every task that it accepted, once
-- each, before the last of its workers leaves.
pub Gracefully-executed :
    (workers : ℕ) {p : Pool}
    → Gracefully (create workers) p
    → AllExited p.workers
    → Perm p.executed p.submitted
Gracefully-executed workers {p} g gone =
    subst (λ xs. Perm xs p.submitted)
      (ap (◌++◌ p.executed) (Gracefully-discarded workers g).1 ∙ append-nil p.executed)
      (Reach-joined workers (Gracefully-Reach g) gone).2
