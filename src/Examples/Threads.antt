-- ===== src/Examples/Threads.antt =====
-- Tests of the worker pool.
use testforge.Base.{refl, [], ◌++◌, ◌≡◌}
use testforge.ThreadPool.{
  shuts_down, finishes, wakes, submits, start, Step, shutdown, next, set_worker, wake, submit,
  leave, finish, take_task, accept, Reach, create, Pool,
}
use testforge.ThreadPool.Invariant.{Reach-IsPool, IsPool}
use mathlib.Core.List.{Perm}
use testforge.ThreadPool.Drain.{
  begin, later, AllExited, Gracefully, Gracefully-Reach, Gracefully-executed, Reach-joined,
}

abbrev queued : Pool
queued = accept 7 (create 1)

abbrev took : Pool
took = take_task 0 7 [] queued

abbrev ran : Pool
ran = finish 0 7 took

abbrev joined : Pool
joined = leave 0 (shutdown ran)

queued-Step : Step (create 1) queued
unfolding create submit
queued-Step = submits 7 refl

took-Step : Step queued took
unfolding create wake
took-Step = wakes 0 refl refl

ran-Step : Step took ran
unfolding create set_worker
ran-Step = finishes 0 7 refl

joined-Step : Step (shutdown ran) joined
unfolding create wake finish shutdown set_worker
joined-Step = wakes 0 refl refl

joined-Gracefully : Gracefully (create 1) joined
unfolding create finish shutdown
joined-Gracefully =
    later
      (later (later (later (later begin queued-Step refl) took-Step refl) ran-Step refl) shuts_down
        refl)
      joined-Step refl

joined-AllExited : AllExited joined.workers
unfolding create finish shutdown set_worker
joined-AllExited = (refl, tt)

took-Reach : Reach (create 1) took
took-Reach = next (next start queued-Step) took-Step

Reach-IsPool_example : IsPool took
Reach-IsPool_example = Reach-IsPool 1 took-Reach

Reach-joined_example :
    (joined.tasks ≡ [])
    × (joined.pending ≡ 0)
    × Perm (joined.executed ++ joined.discarded) joined.submitted
Reach-joined_example = Reach-joined 1 (Gracefully-Reach joined-Gracefully) joined-AllExited

Gracefully-executed_example : Perm joined.executed joined.submitted
Gracefully-executed_example = Gracefully-executed 1 joined-Gracefully joined-AllExited
