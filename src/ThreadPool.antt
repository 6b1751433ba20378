-- ===== src/ThreadPool.antt =====
-- The worker pool (include/testforge/execution/ThreadPool.hpp, src/execution/ThreadPool.cpp) as a
-- step relation. A step is what one thread does while it holds the pool's mutex, so every
-- interleaving of submitters, workers and the two ways to shut down is a sequence of steps.
--
-- A task is a number that its submitter chose, and running it is user code. The lists `executed`,
-- `discarded` and `submitted` record what happened and are not in the source.
pub mod Workers
pub mod Invariant
pub mod Drain
use testforge.Base.{
  length, get_elem?, Option, max, Bool, suc, zero, some, none, [], false, ◌++◌, ◌∷◌, ◌&&◌, ◌≡◌, ◌-◌,
  if◌then◌else◌, true, List, ℕ, arith,
}

-- Where a worker stands in `workerLoop`.
pub data Worker : Type 0 where
  waiting : Worker
  running : ℕ → Worker
  exited : Worker

pub record Pool : Type 0 where
  pub workers : List Worker
  pub tasks : List ℕ
  pub stopping : Bool
  pub discard_queued : Bool
  pub pending : ℕ
  pub submitted : List ℕ
  pub executed : List ℕ
  pub discarded : List ℕ

unfoldable pub replicate_workers : ℕ → List Worker
replicate_workers zero = []
replicate_workers (suc n) = waiting ∷ replicate_workers n

-- The constructor: at least one worker.
unfoldable pub create : ℕ → Pool
unfolding replicate_workers
create workers = record {
  workers = replicate_workers (max 1 workers);
  tasks = [];
  stopping = false;
  discard_queued = false;
  pending = 0;
  submitted = [];
  executed = [];
  discarded = [];
}

abbrev pub accept : ℕ → Pool → Pool
accept task p = record p {
  tasks = p.tasks ++ task ∷ [];
  pending = suc p.pending;
  submitted = p.submitted ++ task ∷ [];
}

-- `submit`; `none` is the `std::runtime_error` of a pool that is stopping.
unfoldable pub submit : ℕ → Pool → Option Pool
submit task p = if p.stopping then none else some (accept task p)

unfoldable pub shutdown : Pool → Pool
shutdown p = record p { stopping = true; discard_queued = false }

unfoldable pub shutdown_now : Pool → Pool
shutdown_now p = record p { stopping = true; discard_queued = true }

unfoldable pub set_worker : ℕ → Worker → List Worker → List Worker
set_worker i w [] = []
set_worker zero w (x ∷ xs) = w ∷ xs
set_worker (suc i) w (x ∷ xs) = x ∷ set_worker i w xs

-- What a worker does behind its wait: it leaves, it drops the queue, or it takes the first task.
abbrev pub leave : ℕ → Pool → Pool
leave i p = record p { workers = set_worker i exited p.workers }

abbrev pub drop_queue : ℕ → Pool → Pool
drop_queue i p = record p {
  workers = set_worker i exited p.workers;
  tasks = [];
  pending = p.pending - length p.tasks;
  discarded = p.discarded ++ p.tasks;
}

abbrev pub take_task : ℕ → ℕ → List ℕ → Pool → Pool
take_task i task rest p = record p { workers = set_worker i (running task) p.workers; tasks = rest }

-- The first critical section of `workerLoop`: `none` where the wait goes on. (The source's counters
-- are unsigned; that no subtraction passes zero is part of the invariant.)
unfoldable pub wake : ℕ → Pool → Option Pool
wake i p = elim p.tasks [
  | [] ↦ if p.stopping then some (leave i p) else none
  | task ∷ rest ↦
      if p.stopping && p.discard_queued
      then some (drop_queue i p)
      else some (take_task i task rest p)
]

-- The second critical section, after the task.
unfoldable pub finish : ℕ → ℕ → Pool → Pool
unfolding set_worker
finish i task p = record p {
  workers = set_worker i waiting p.workers;
  pending = p.pending - 1;
  executed = p.executed ++ task ∷ [];
}

pub data Step (p : Pool) : Pool → Type 0 where
  submits : (task : ℕ) {q : Pool} → submit task p ≡ some q → Step p q
  shuts_down : Step p (shutdown p)
  shuts_down_now : Step p (shutdown_now p)
  wakes : (i : ℕ) {q : Pool} → get_elem? p.workers i ≡ some waiting → wake i p ≡ some q → Step p q
  finishes : (i task : ℕ) → get_elem? p.workers i ≡ some (running task) → Step p (finish i task p)

pub data Reach (p : Pool) : Pool → Type 0 where
  start : Reach p p
  next : {q r : Pool} → Reach p q → Step q r → Reach p r
