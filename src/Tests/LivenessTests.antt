-- ===== src/Tests/LivenessTests.antt =====
-- Two tasks of python/nano_ray/driver.py that have been submitted, and what becomes of them.
use nano_ray.Prelude.{
  ℕ, suc, ◌+◌, ◌≡◌, refl, sym, subst, List, [], ◌∷◌, some, true, ◌||◌, arith, elem, ==_iff, ◌⊎◌,
}
use nano_ray.Values.{obj, object_ref, end, user}
use nano_ray.ObjectStore
use nano_ray.Ownership.{get_producer_task}
use nano_ray.Dag.{extract_dependencies}
use nano_ray.Worker.{execute, work}
use nano_ray.Driver.{Runtime, init, submit_task, collect, evict_object, flush_ready_tasks}
use nano_ray.Driver.System.{Steps, here, next, submits}
use nano_ray.Driver.Results.{Grows-refl}
use nano_ray.Driver.Works.{Works, started}
use nano_ray.Driver.Placed.{IsUnderWay, IsHeldBack, run-Placed}
use nano_ray.Driver.Recoverable.{rebuilt}
use nano_ray.Driver.Loss.{IsTraced, IsTraced-later}
use nano_ray.Driver.Tracked.{Tracked, run-Tracked}
use nano_ray.Driver.Quiet.{Quiet, Failing}
use nano_ray.Driver.Drain.{run-Quiet}
use nano_ray.Tests.Data.{toy, task, one_arg}
use nano_ray.Tests.RuntimeTests.{second, second_step}

second-IsTraced_one : (n : ℕ) → IsTraced toy second (suc n) 1
unfolding init submit_task nano_ray.Driver.enter_task flush_ready_tasks nano_ray.Driver.flush_rounds
    nano_ray.Driver.send collect nano_ray.Driver.accept nano_ray.Driver.reject evict_object
    nano_ray.Driver.next_unique_id nano_ray.Driver.retrigger nano_ray.Dag.extract_dependencies
    nano_ray.Dag.collect_values nano_ray.Dag.collect_refs nano_ray.Dag.resolve_args
    nano_ray.Dag.resolve_items nano_ray.Dag.resolve_fields ObjectStore.init ObjectStore.contains
    ObjectStore.get_now ObjectStore.put ObjectStore.put_locked ObjectStore.signal
    ObjectStore.wait_locked ObjectStore.delete nano_ray.Prelude.Dict.contains
    nano_ray.Prelude.Dict.lookup nano_ray.Prelude.Dict.insert nano_ray.Prelude.Dict.erase
    nano_ray.Prelude.Dict.modify nano_ray.Prelude.Dict.get_field nano_ray.Scheduler.init
    nano_ray.Scheduler.submit nano_ray.Scheduler.index_all nano_ray.Scheduler.pop_ready_task
    nano_ray.Scheduler.on_object_ready nano_ray.Scheduler.unblock_all nano_ray.Scheduler.unblock
    nano_ray.Ownership.init nano_ray.Ownership.register_task nano_ray.Ownership.task_finished
    nano_ray.Ownership.task_failed nano_ray.Ownership.get_producer_task
    nano_ray.Ownership.get_task_lineage nano_ray.Prelude.discard nano_ray.Prelude.set_of
    nano_ray.Prelude.elem execute work
second-IsTraced_one n =
    rebuilt 0 (task (user 1) (one_arg (obj 5)) end) (user 1) (one_arg (obj 5)) end refl refl refl
      (λ d e. absurd (ground arith))

only_one : (d : ℕ) → elem d (extract_dependencies (one_arg (object_ref 1)) end) ≡ true → d ≡ 1
unfolding elem extract_dependencies nano_ray.Dag.collect_values nano_ray.Dag.collect_refs
    nano_ray.Dag.collect_item nano_ray.Prelude.set_of nano_ray.Prelude.discard
only_one d e = (==_iff d 1).0 (ground arith)

second-IsTraced_three : IsTraced toy second 2 3
unfolding init submit_task nano_ray.Driver.enter_task flush_ready_tasks nano_ray.Driver.flush_rounds
    nano_ray.Driver.send collect nano_ray.Driver.accept nano_ray.Driver.reject evict_object
    nano_ray.Driver.next_unique_id nano_ray.Driver.retrigger nano_ray.Dag.extract_dependencies
    nano_ray.Dag.collect_values nano_ray.Dag.collect_refs nano_ray.Dag.resolve_args
    nano_ray.Dag.resolve_items nano_ray.Dag.resolve_fields ObjectStore.init ObjectStore.contains
    ObjectStore.get_now ObjectStore.put ObjectStore.put_locked ObjectStore.signal
    ObjectStore.wait_locked ObjectStore.delete nano_ray.Prelude.Dict.contains
    nano_ray.Prelude.Dict.lookup nano_ray.Prelude.Dict.insert nano_ray.Prelude.Dict.erase
    nano_ray.Prelude.Dict.modify nano_ray.Prelude.Dict.get_field nano_ray.Scheduler.init
    nano_ray.Scheduler.submit nano_ray.Scheduler.index_all nano_ray.Scheduler.pop_ready_task
    nano_ray.Scheduler.on_object_ready nano_ray.Scheduler.unblock_all nano_ray.Scheduler.unblock
    nano_ray.Ownership.init nano_ray.Ownership.register_task nano_ray.Ownership.task_finished
    nano_ray.Ownership.task_failed nano_ray.Ownership.get_producer_task
    nano_ray.Ownership.get_task_lineage nano_ray.Prelude.discard nano_ray.Prelude.set_of
    nano_ray.Prelude.elem execute work
second-IsTraced_three =
    rebuilt 2 (task (user 1) (one_arg (object_ref 1)) end) (user 1) (one_arg (object_ref 1)) end
      refl refl refl
      (λ d e. subst (λ x. IsTraced toy second 1 x) (sym (only_one d e)) (second-IsTraced_one 0))

run-Tracked_example : Tracked toy second
run-Tracked_example = run-Tracked toy 1 second second_step

-- The same submissions, after `start`.
abbrev at_work : Runtime toy → Runtime toy
at_work r = record r { running = true; workers = 1 }

abbrev on_second : Runtime toy
on_second = at_work second

on_second_step : Steps toy (started toy 0) on_second
unfolding submit_task nano_ray.Dag.extract_dependencies nano_ray.Dag.collect_values
    ObjectStore.contains nano_ray.Prelude.Dict.contains nano_ray.Scheduler.submit init
    nano_ray.Scheduler.init nano_ray.Scheduler.pop_ready_task nano_ray.Dag.resolve_args
    nano_ray.Dag.resolve_items ObjectStore.init nano_ray.Driver.start
on_second_step =
    next (next here (submits (user 1) (one_arg (obj 5)) end 1 refl))
      (submits (user 1) (one_arg (object_ref 1)) end 3 refl)

run-Quiet_example :
    (r' : Runtime toy) × Works toy on_second r'
    × Quiet toy r'
    × ((ObjectStore.contains 3 r'.object_store ≡ true) ⊎ Failing toy r' 3)
run-Quiet_example = run-Quiet toy 0 2 3 on_second on_second_step (
    IsTraced-later toy second (record on_second { object_store = ObjectStore.init })
      (Grows-refl toy second) second-IsTraced_three)

producer_of_three : get_producer_task 3 second.ownership ≡ some 2
unfolding init submit_task nano_ray.Driver.enter_task nano_ray.Driver.next_unique_id
    nano_ray.Driver.flush_ready_tasks nano_ray.Driver.flush_rounds nano_ray.Driver.send
    nano_ray.Driver.retrigger nano_ray.Dag.extract_dependencies nano_ray.Dag.collect_values
    nano_ray.Dag.collect_refs nano_ray.Dag.resolve_args nano_ray.Dag.resolve_items
    nano_ray.Dag.resolve_fields ObjectStore.init ObjectStore.contains nano_ray.Prelude.Dict.contains
    nano_ray.Prelude.Dict.lookup nano_ray.Prelude.Dict.insert nano_ray.Prelude.Dict.get_field
    nano_ray.Scheduler.init nano_ray.Scheduler.submit nano_ray.Scheduler.index_all
    nano_ray.Scheduler.pop_ready_task nano_ray.Ownership.init nano_ray.Ownership.register_task
    get_producer_task
producer_of_three = refl

run-Placed_example :
    (ObjectStore.contains 3 second.object_store ≡ true)
    ⊎ (IsUnderWay toy 3 second ⊎ IsHeldBack toy 3 second)
run-Placed_example = run-Placed toy 1 3 2 second second_step producer_of_three
