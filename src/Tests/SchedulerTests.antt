-- ===== src/Tests/SchedulerTests.antt =====
-- python/nano_ray/_fallback/scheduler.py on a task that waits for one object.
use nano_ray.Prelude.{
  ℕ, ◌≡◌, refl, List, [], ◌∷◌, ◌++◌, Option, none, some, Bool, true, false, not, subset,
}
use mathlib.Core.List.{Mem, Perm}
use nano_ray.Prelude.Dict.{lookup, contains, IsUnique}
use nano_ray.Values.{object_ref, TaskSpec}
use nano_ray.Scheduler
use nano_ray.Scheduler.{Scheduler, init, submit, on_object_ready, pop_ready_task, has_ready_tasks}
use nano_ray.Scheduler.Run.{Call, submits, readies, pops, step, run, submitted, popped, answer}
use nano_ray.Scheduler.Index.{IsIndexed, run-init-IsIndexed}
use nano_ray.Scheduler.Conserve.{IsFresh, held, run-init-perm}
use nano_ray.Scheduler.Progress.{contains-run-submit, mem-popped-ready, announced}
use nano_ray.Tests.Data.{spec_of}

-- Task 2 waits for object 1.
abbrev waiting_spec : TaskSpec
waiting_spec = spec_of 2 (object_ref 1)

abbrev history : List Call
history = submits waiting_spec (some (1 ∷ [])) ∷ readies 1 ∷ pops ∷ []

handed_out : popped init history ≡ waiting_spec ∷ []
unfolding init popped answer step submit on_object_ready pop_ready_task Scheduler.unblock_all
    Scheduler.unblock Scheduler.index_all lookup nano_ray.Prelude.Dict.insert
    nano_ray.Prelude.discard nano_ray.Prelude.set_of
handed_out = refl

history-IsFresh : IsFresh init history
unfolding init step lookup
history-IsFresh = (refl, tt)

init-IsIndexed : IsIndexed init
unfolding init run
init-IsIndexed = run-init-IsIndexed []

init-IsUnique : IsUnique init.pending_tasks
unfolding init
init-IsUnique = tt

both_announced : subset (1 ∷ []) (announced (readies 1 ∷ pops ∷ [])) ≡ true
unfolding announced subset
both_announced = refl

-- The theorems at this history.
run-init-perm_example : Perm (popped init history ++ held (run init history)) (submitted history)
run-init-perm_example = run-init-perm history history-IsFresh

contains-run-submit_example :
    contains 2 (run (submit waiting_spec (some (1 ∷ [])) init) (readies 3 ∷ [])).pending_tasks
    ≡ not (subset (1 ∷ []) (announced (readies 3 ∷ [])))
contains-run-submit_example =
    contains-run-submit waiting_spec 1 [] init (readies 3 ∷ []) init-IsIndexed tt

mem-popped-ready_example : Mem waiting_spec (
    popped (submit waiting_spec (some (1 ∷ [])) init) (readies 1 ∷ pops ∷ [])
    ++ (run (submit waiting_spec (some (1 ∷ [])) init) (readies 1 ∷ pops ∷ [])).ready_queue)
mem-popped-ready_example =
    mem-popped-ready waiting_spec 1 [] init (readies 1 ∷ pops ∷ []) init-IsIndexed tt init-IsUnique
      history-IsFresh both_announced
