-- ===== src/ThreadPool/Workers.antt =====
-- What a change of one worker does to the tasks in hand, and to the exits
-- (src/execution/ThreadPool.cpp).
use testforge.Base.{
  subst, ap, length, get_elem?, Bool, ℕ, suc, zero, refl, some, [], false, true, ◌∷◌, ◌≢◌, ◌≡◌,
  List, arith,
}
use mathlib.Core.List.Perm
use testforge.ThreadPool.{exited, waiting, running, Worker, set_worker, replicate_workers}
use mathlib.Core.List.{Perm}

-- The tasks that workers are running.
abbrev pub in_hand : List Worker → List ℕ
in_hand [] = []
in_hand (running t ∷ ws) = t ∷ in_hand ws
in_hand (waiting ∷ ws) = in_hand ws
in_hand (exited ∷ ws) = in_hand ws

abbrev pub has_exited : List Worker → Bool
has_exited [] = false
has_exited (exited ∷ ws) = true
has_exited (waiting ∷ ws) = has_exited ws
has_exited (running t ∷ ws) = has_exited ws

pub in_hand-replicate : (n : ℕ) → in_hand (replicate_workers n) ≡ []
unfolding replicate_workers
in_hand-replicate zero = refl
in_hand-replicate (suc n) = in_hand-replicate n

pub exited-replicate : (n : ℕ) → has_exited (replicate_workers n) ≡ false
unfolding replicate_workers
exited-replicate zero = refl
exited-replicate (suc n) = exited-replicate n

pub take-in_hand :
    (i task : ℕ) (ws : List Worker)
    → get_elem? ws i ≡ some waiting
    → Perm (in_hand (set_worker i (running task) ws)) (task ∷ in_hand ws)
unfolding set_worker
take-in_hand i task [] h = cc
take-in_hand zero task (waiting ∷ ws) h = Perm.refl _
take-in_hand zero task (running t ∷ ws) h = cc
take-in_hand zero task (exited ∷ ws) h = cc
take-in_hand (suc i) task (waiting ∷ ws) h = take-in_hand i task ws h
take-in_hand (suc i) task (exited ∷ ws) h = take-in_hand i task ws h
take-in_hand (suc i) task (running t ∷ ws) h =
    Perm.trans (Perm.cons t (take-in_hand i task ws h)) (Perm.swap task t _)

pub exit-in_hand :
    (i : ℕ) (ws : List Worker)
    → get_elem? ws i ≡ some waiting
    → in_hand (set_worker i exited ws) ≡ in_hand ws
unfolding set_worker
exit-in_hand i [] h = cc
exit-in_hand zero (waiting ∷ ws) h = refl
exit-in_hand zero (running t ∷ ws) h = cc
exit-in_hand zero (exited ∷ ws) h = cc
exit-in_hand (suc i) (waiting ∷ ws) h = exit-in_hand i ws h
exit-in_hand (suc i) (exited ∷ ws) h = exit-in_hand i ws h
exit-in_hand (suc i) (running t ∷ ws) h = ap (◌∷◌ t) (exit-in_hand i ws h)

pub finish-in_hand :
    (i task : ℕ) (ws : List Worker)
    → get_elem? ws i ≡ some (running task)
    → Perm (in_hand ws) (task ∷ in_hand (set_worker i waiting ws))
unfolding set_worker
finish-in_hand i task [] h = cc
finish-in_hand zero task (waiting ∷ ws) h = cc
finish-in_hand zero task (running t ∷ ws) h =
    subst (λ u. Perm (t ∷ in_hand ws) (u ∷ in_hand ws)) (cc) (Perm.refl _)
finish-in_hand zero task (exited ∷ ws) h = cc
finish-in_hand (suc i) task (waiting ∷ ws) h = finish-in_hand i task ws h
finish-in_hand (suc i) task (exited ∷ ws) h = finish-in_hand i task ws h
finish-in_hand (suc i) task (running t ∷ ws) h =
    Perm.trans (Perm.cons t (finish-in_hand i task ws h)) (Perm.swap task t _)

pub length-set_worker :
    (i : ℕ) (w : Worker) (ws : List Worker) → length (set_worker i w ws) ≡ length ws
unfolding set_worker
length-set_worker i w [] = refl
length-set_worker zero w (x ∷ ws) = refl
length-set_worker (suc i) w (x ∷ ws) = ap suc (length-set_worker i w ws)

pub length-replicate : (n : ℕ) → length (replicate_workers n) ≡ n
unfolding replicate_workers
length-replicate zero = refl
length-replicate (suc n) = ap suc (length-replicate n)

pub exits-kept :
    (i : ℕ) (w v : Worker) (ws : List Worker)
    → get_elem? ws i ≡ some v
    → v ≢ exited
    → w ≢ exited
    → has_exited (set_worker i w ws) ≡ has_exited ws
unfolding set_worker
exits-kept i w v [] h ne nw = cc
exits-kept zero w v (x ∷ ws) h ne nw = ground arith
exits-kept (suc i) w v (x ∷ ws) h ne nw = ground (arith, exits-kept i w v ws h ne nw)
