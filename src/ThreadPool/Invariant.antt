-- ===== src/ThreadPool/Invariant.antt =====
-- The pool's invariant over every interleaving (src/execution/ThreadPool.cpp).
use testforge.Base.{
  ap, sym, append-nil, max, subst, length-append, append_assoc, get_elem?, length, List, inr, inl,
  refl, some, [], false, true, ◌++◌, ◌∷◌, ◌⊎◌, ◌∙◌, ◌≡◌, ◌≤◌, ◌+◌, ℕ, arith,
}
use mathlib.Core.List.Perm
use testforge.ThreadPool.{
  shuts_down_now, shuts_down, finishes, wakes, shutdown_now, shutdown, exited, start, next,
  take_task, set_worker, drop_queue, submits, create, running, waiting, leave, Reach, Step, accept,
  finish, wake, submit, Pool,
}
use testforge.ThreadPool.Workers.{
  exits-kept, length-set_worker, length-replicate, finish-in_hand, take-in_hand, exit-in_hand,
  exited-replicate, in_hand-replicate, has_exited, in_hand,
}
use mathlib.Core.List.{perm_append_comm, perm_middle, Perm}
use testforge.Keep.{Perm-length}

-- Every task that was submitted is in exactly one place.
abbrev pub places : Pool → List ℕ
places p = p.executed ++ (p.discarded ++ (in_hand p.workers ++ p.tasks))

pub record IsPool (p : Pool) : Type 0 where
  pub counted : p.pending ≡ length (in_hand p.workers) + length p.tasks
  pub drained : has_exited p.workers ≡ true → (p.stopping ≡ true) × (p.tasks ≡ [])
  pub accounted : Perm (places p) p.submitted
  pub staffed : 1 ≤ length p.workers

create-IsPool : (n : ℕ) → IsPool (create n)
unfolding create
create-IsPool n = record {
  counted = rw (in_hand-replicate (max 1 n)) refl;
  drained = λ h. cc (exited-replicate (max 1 n));
  accounted = rw (in_hand-replicate (max 1 n)) (Perm.refl []);
  staffed = omega (arith, length-replicate (max 1 n));
}

submit_inv :
    (task : ℕ) (p q : Pool) → submit task p ≡ some q → (p.stopping ≡ false) × (accept task p ≡ q)
unfolding submit
submit_inv task p q e = ground arith

abbrev Wakes : ℕ → Pool → Pool → List ℕ → Type 0
Wakes i p q [] = (p.stopping ≡ true) × (leave i p ≡ q)
Wakes i p q (task ∷ rest) =
    ((p.stopping ≡ true) × (drop_queue i p ≡ q)) ⊎ (take_task i task rest p ≡ q)

-- A fact about the queue carries over to its value.
wake_inv : (i : ℕ) (p q : Pool) (ts : List ℕ) → p.tasks ≡ ts → wake i p ≡ some q → Wakes i p q ts
unfolding wake
wake_inv i p q [] h e = ground arith
wake_inv i p q (task ∷ rest) h e = ground arith

accept-IsPool : (task : ℕ) (p : Pool) → p.stopping ≡ false → IsPool p → IsPool (accept task p)
accept-IsPool task p open' v = record {
  counted = omega (arith, length-append p.tasks (task ∷ []), v.counted);
  drained = λ h. cc ((v.drained h).0);
  accounted =
      subst (λ xs. Perm xs (p.submitted ++ task ∷ [])) regroup (Perm.append_right _ v.accounted);
  staffed = v.staffed;
}
  where
    regroup : places p ++ task ∷ [] ≡ places (accept task p)
    regroup = simp append_assoc

leave-IsPool :
    (i : ℕ) (p : Pool)
    → get_elem? p.workers i ≡ some waiting
    → p.stopping ≡ true
    → p.tasks ≡ []
    → IsPool p
    → IsPool (leave i p)
leave-IsPool i p w stops empty v =
    let same : in_hand (set_worker i exited p.workers) ≡ in_hand p.workers =
      exit-in_hand i p.workers w in
    record {
      counted = rw same v.counted;
      drained = λ h. (stops, empty);
      accounted = rw same v.accounted;
      staffed = omega (arith, length-set_worker i exited p.workers, v.staffed);
    }

drop_queue-IsPool :
    (i : ℕ) (p : Pool)
    → get_elem? p.workers i ≡ some waiting
    → p.stopping ≡ true
    → IsPool p
    → IsPool (drop_queue i p)
drop_queue-IsPool i p w stops v =
    let same : in_hand (set_worker i exited p.workers) ≡ in_hand p.workers =
      exit-in_hand i p.workers w in
    record {
      counted = rw same (omega (arith, v.counted));
      drained = λ h. (stops, refl);
      accounted = rw same (Perm.trans moved v.accounted);
      staffed = omega (arith, length-set_worker i exited p.workers, v.staffed);
    }
  where
    moved : Perm (p.executed ++ ((p.discarded ++ p.tasks) ++ (in_hand p.workers ++ []))) (places p)
    moved = Perm.append_left p.executed (
        rw (append-nil (in_hand p.workers), append_assoc p.discarded p.tasks)
          (Perm.append_left p.discarded (perm_append_comm p.tasks (in_hand p.workers))))

take_task-IsPool :
    (i task : ℕ) (rest : List ℕ) (p : Pool)
    → get_elem? p.workers i ≡ some waiting
    → p.tasks ≡ task ∷ rest
    → IsPool p
    → IsPool (take_task i task rest p)
take_task-IsPool i task rest p w queued v =
    let taken : Perm (in_hand (set_worker i (running task) p.workers)) (task ∷ in_hand p.workers) =
      take-in_hand i task p.workers w in
    record {
      counted = omega (arith, Perm-length taken, v.counted, ap length queued);
      drained = λ h. cc (
        (v.drained
            (sym (exits-kept i (running task) waiting p.workers w (λ e. cc) (λ e. cc)) ∙ h)).1,
        queued,
      );
      accounted = Perm.trans (moved taken) v.accounted;
      staffed = omega (arith, length-set_worker i (running task) p.workers, v.staffed);
    }
  where
    moved :
        Perm (in_hand (set_worker i (running task) p.workers)) (task ∷ in_hand p.workers)
        → Perm (places (take_task i task rest p)) (places p)
    moved taken =
        subst
          (λ ts.
            Perm (places (take_task i task rest p))
              (p.executed ++ (p.discarded ++ (in_hand p.workers ++ ts))))
          (sym queued)
          (Perm.append_left p.executed (
            Perm.append_left p.discarded (
              Perm.trans (Perm.append_right rest taken)
                (Perm.symm (perm_middle (in_hand p.workers) rest)))))

finish-IsPool :
    (i task : ℕ) (p : Pool)
    → get_elem? p.workers i ≡ some (running task)
    → IsPool p
    → IsPool (finish i task p)
unfolding finish
finish-IsPool i task p w v =
    let done : Perm (in_hand p.workers) (task ∷ in_hand (set_worker i waiting p.workers)) =
      finish-in_hand i task p.workers w in
    record {
      counted = omega (arith, Perm-length done, v.counted);
      drained = λ h.
          v.drained (sym (exits-kept i waiting (running task) p.workers w (λ e. cc) (λ e. cc)) ∙ h);
      accounted = Perm.trans (moved done) v.accounted;
      staffed = omega (arith, length-set_worker i waiting p.workers, v.staffed);
    }
  where
    moved :
        Perm (in_hand p.workers) (task ∷ in_hand (set_worker i waiting p.workers))
        → Perm (places (finish i task p)) (places p)
    moved done = rw (append_assoc p.executed (task ∷ [])) (
        Perm.append_left p.executed (
          Perm.trans (Perm.symm (perm_middle p.discarded _))
            (Perm.append_left p.discarded (Perm.append_right p.tasks (Perm.symm done)))))

wake-IsPool :
    (i : ℕ) (p q : Pool) (ts : List ℕ)
    → get_elem? p.workers i ≡ some waiting
    → p.tasks ≡ ts
    → Wakes i p q ts
    → IsPool p
    → IsPool q
wake-IsPool i p q [] w e (stops, r) v = subst IsPool r (leave-IsPool i p w stops e v)
wake-IsPool i p q (task ∷ rest) w e (inl (stops, r)) v =
    subst IsPool r (drop_queue-IsPool i p w stops v)
wake-IsPool i p q (task ∷ rest) w e (inr r) v =
    subst IsPool r (take_task-IsPool i task rest p w e v)

pub Step-IsPool : {p q : Pool} → Step p q → IsPool p → IsPool q
Step-IsPool {p} (submits task {q} e) v =
    let (open', r) = submit_inv task p q e in subst IsPool r (accept-IsPool task p open' v)
Step-IsPool {p} shuts_down v =
    unfold shutdown in
    record {
      counted = v.counted;
      drained = λ h. (refl, (v.drained h).1);
      accounted = v.accounted;
      staffed = v.staffed;
    }
Step-IsPool {p} shuts_down_now v =
    unfold shutdown_now in
    record {
      counted = v.counted;
      drained = λ h. (refl, (v.drained h).1);
      accounted = v.accounted;
      staffed = v.staffed;
    }
Step-IsPool {p} (wakes i {q} w e) v =
    wake-IsPool i p q p.tasks w refl (wake_inv i p q p.tasks refl e) v
Step-IsPool {p} (finishes i task w) v = finish-IsPool i task p w v

-- However submitters, workers and shutdowns interleave: the counter `pending_` is the number of the
-- tasks queued or running, a worker has left only a pool that is stopping and whose queue is empty,
-- and every task submitted stands once among those executed, discarded, running and queued.
pub Reach-IsPool : (workers : ℕ) {p : Pool} → Reach (create workers) p → IsPool p
Reach-IsPool workers start = create-IsPool workers
Reach-IsPool workers (next r s) = Step-IsPool s (Reach-IsPool workers r)
