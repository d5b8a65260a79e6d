-- ===== src/Tests/RuntimeTests.antt =====
-- python/nano_ray/driver.py: two tasks, the second on the first one's result; then the first result
-- is evicted, and its task is executed again.
use nano_ray.Prelude.{
  ℕ, ◌+◌, ◌≡◌, refl, List, [], ◌∷◌, ◌++◌, Option, none, some, get_or_else, All, arith, elem,
}
use nano_ray.Values.{Value, obj, object_ref, end, user}
use nano_ray.ObjectStore
use nano_ray.ObjectStore.{ObjectStore}
use nano_ray.ObjectStore.Laws.{content}
use nano_ray.Worker.{Message, work, stored_value, execute}
use nano_ray.Driver.{Runtime, init, submit_task, collect, evict_object, flush_ready_tasks}
use nano_ray.Driver.Recovery.{send_again}
use nano_ray.Answers.{done, value_or}
use nano_ray.Ownership.{get_producer_task, get_task_lineage}
use nano_ray.Driver.Flush.{AllStored, spec_deps}
use nano_ray.Driver.Safety.{Settled, submit_task-Settled, collect-Settled}
use nano_ray.Driver.Meaning.{Denotes}
use nano_ray.Driver.System.{
  submits, finishes, collects, resends, evicts, Steps, here, next, Lossy, lossless, steps, loses,
}
use nano_ray.Driver.Results.{Steps-Lossy, run-Settled, stored-Denotes, stored_again}
use nano_ray.Tests.Data.{toy, task, one_arg, spec_of}

abbrev or_fresh : Option (Runtime toy) → Runtime toy
or_fresh r = get_or_else r (init toy 1)

abbrev pub message_of : ℕ → Value → Message toy
message_of t v = record { task_id = t; object_id = t + 1; payload = task (user 1) (one_arg v) end }

abbrev submit_to : Value → Runtime toy → Runtime toy
submit_to v r = elim (submit_task toy (user 1) (one_arg v) end r) [
  | none ↦ init toy 1
  | some (o, r') ↦ r'
]

-- Task 0 makes object 1 from 5; task 2 makes object 3 from object 1.
abbrev pub first : Runtime toy
first = submit_to (obj 5) (init toy 1)

abbrev pub second : Runtime toy
second = submit_to (object_ref 1) first

abbrev pub worked : ℕ → Value → Runtime toy → Runtime toy
worked t v r = record r {
  task_queue = [];
  result_queue = r.result_queue ++ work toy (message_of t v) ∷ [];
}

abbrev pub taken_in : ℕ → Value → Runtime toy → Runtime toy
taken_in t v r = or_fresh (collect toy (work toy (message_of t v)) (record r { result_queue = [] }))

abbrev pub has_six : Runtime toy
has_six = taken_in 0 (obj 5) (worked 0 (obj 5) second)

abbrev lost_six : Runtime toy
lost_six = (evict_object toy 1 has_six).1

abbrev sent_again : Runtime toy
sent_again =
    value_or (init toy 1)
      (send_again toy 0 1 (task (user 1) (one_arg (obj 5)) end) (worked 2 (obj 6) lost_six))

abbrev seven : Runtime toy
seven = taken_in 2 (obj 6) sent_again

abbrev six_again : Runtime toy
six_again = taken_in 0 (obj 5) (worked 0 (obj 5) seven)

pub first_step : Steps toy (init toy 1) first
unfolding submit_task nano_ray.Dag.extract_dependencies nano_ray.Dag.collect_values
    nano_ray.Scheduler.submit init nano_ray.Scheduler.init nano_ray.Scheduler.pop_ready_task
    nano_ray.Dag.resolve_args nano_ray.Dag.resolve_items
first_step = next here (submits (user 1) (one_arg (obj 5)) end 1 refl)

pub second_step : Steps toy (init toy 1) second
unfolding submit_task nano_ray.Dag.extract_dependencies nano_ray.Dag.collect_values
    ObjectStore.contains nano_ray.Prelude.Dict.contains nano_ray.Scheduler.submit init
    nano_ray.Scheduler.init nano_ray.Scheduler.pop_ready_task nano_ray.Dag.resolve_args
    nano_ray.Dag.resolve_items ObjectStore.init
second_step = next first_step (submits (user 1) (one_arg (object_ref 1)) end 3 refl)

-- What the run computes to.
run_values :
    (collect toy
        (work toy (message_of 0 (obj 5)))
        (record (worked 0 (obj 5) second) { result_queue = [] })
      ≡ some has_six)
    × (content has_six.object_store 1 ≡ some (obj 6))
    × (content lost_six.object_store 1 ≡ none)
    × (lost_six.task_queue ≡ some (message_of 2 (obj 6)) ∷ [])
    × (send_again toy 0 1 (task (user 1) (one_arg (obj 5)) end) (worked 2 (obj 6) lost_six)
        ≡ done sent_again)
    × (sent_again.result_queue ≡ work toy (message_of 2 (obj 6)) ∷ [])
    × (collect toy (work toy (message_of 2 (obj 6))) (record sent_again { result_queue = [] })
        ≡ some seven)
    × (seven.task_queue ≡ some (message_of 0 (obj 5)) ∷ [])
    × ((worked 0 (obj 5) seven).result_queue ≡ work toy (message_of 0 (obj 5)) ∷ [])
    × (collect toy
          (work toy (message_of 0 (obj 5)))
          (record (worked 0 (obj 5) seven) { result_queue = [] })
        ≡ some six_again)
    × (content six_again.object_store 1 ≡ some (obj 6))
    × (content six_again.object_store 3 ≡ some (obj 7))
    × (second.task_queue ≡ some (message_of 0 (obj 5)) ∷ [])
    × ((worked 0 (obj 5) second).result_queue ≡ work toy (message_of 0 (obj 5)) ∷ [])
    × (get_producer_task 1 (worked 2 (obj 6) lost_six).ownership ≡ some 0)
    × (get_task_lineage 0 (worked 2 (obj 6) lost_six).ownership
        ≡ some (task (user 1) (one_arg (obj 5)) end, []))
unfolding init submit_task nano_ray.Driver.enter_task flush_ready_tasks nano_ray.Driver.flush_rounds
    nano_ray.Driver.send collect nano_ray.Driver.accept nano_ray.Driver.reject evict_object
    send_again nano_ray.Driver.next_unique_id nano_ray.Driver.retrigger
    nano_ray.Dag.extract_dependencies nano_ray.Dag.collect_values nano_ray.Dag.collect_refs
    nano_ray.Dag.resolve_args nano_ray.Dag.resolve_items nano_ray.Dag.resolve_fields
    ObjectStore.init ObjectStore.contains ObjectStore.get_now ObjectStore.put ObjectStore.put_locked
    ObjectStore.signal ObjectStore.wait_locked ObjectStore.delete nano_ray.Prelude.Dict.contains
    nano_ray.Prelude.Dict.lookup nano_ray.Prelude.Dict.insert nano_ray.Prelude.Dict.erase
    nano_ray.Prelude.Dict.modify nano_ray.Prelude.Dict.get_field nano_ray.Scheduler.init
    nano_ray.Scheduler.submit nano_ray.Scheduler.index_all nano_ray.Scheduler.pop_ready_task
    nano_ray.Scheduler.on_object_ready nano_ray.Scheduler.unblock_all nano_ray.Scheduler.unblock
    nano_ray.Ownership.init nano_ray.Ownership.register_task nano_ray.Ownership.task_finished
    nano_ray.Ownership.task_failed nano_ray.Ownership.get_producer_task
    nano_ray.Ownership.get_task_lineage nano_ray.Prelude.discard nano_ray.Prelude.set_of
    nano_ray.Prelude.elem execute work
run_values =
    (refl, refl, refl, refl, refl, refl, refl, refl, refl, refl, refl, refl, refl, refl, refl, refl)

pub has_six_step : Steps toy (init toy 1) has_six
has_six_step =
    next (next second_step (finishes [] [] (message_of 0 (obj 5)) run_values.12 refl))
      (collects (work toy (message_of 0 (obj 5))) [] run_values.13 run_values.0)

has_six_run : Lossy toy (init toy 1) has_six
has_six_run = Steps-Lossy toy has_six_step

six_again_run : Lossy toy has_six six_again
six_again_run =
    steps
      (steps
        (steps
          (steps
            (steps (loses lossless (evicts 1 refl))
              (finishes [] [] (message_of 2 (obj 6)) run_values.3 refl))
            (resends 0 1 (task (user 1) (one_arg (obj 5)) end) [] run_values.14 run_values.15
              run_values.4))
          (collects (work toy (message_of 2 (obj 6))) [] run_values.5 run_values.6))
        (finishes [] [] (message_of 0 (obj 5)) run_values.7 refl))
      (collects (work toy (message_of 0 (obj 5))) [] run_values.8 run_values.9)

stored-Denotes_example : Denotes toy has_six.ownership 1 (obj 6)
stored-Denotes_example = stored-Denotes toy 1 has_six 1 (obj 6) has_six_run run_values.1

stored_again_example : obj 6 ≡ obj 6
stored_again_example =
    stored_again toy 1 has_six six_again 1 (obj 6) (obj 6) has_six_run six_again_run run_values.1
      run_values.10

submit_task-Settled_example :
    (r' : Runtime toy) × (submit_task toy (user 1) (one_arg (object_ref 3)) end has_six
      ≡ some (has_six.next_id + 1, r'))
    × Settled toy r'
    × (r'.object_store ≡ has_six.object_store)
submit_task-Settled_example =
    submit_task-Settled toy (user 1) (one_arg (object_ref 3)) end has_six
      (run-Settled toy 1 has_six has_six_step).scheduled

collect-Settled_example :
    (r' : Runtime toy) × (collect toy (work toy (message_of 2 (obj 6))) has_six ≡ some r')
    × Settled toy r'
    × (r'.object_store
        ≡ ObjectStore.put 3
            (stored_value toy 2 (work toy (message_of 2 (obj 6))).result)
            has_six.object_store)
unfolding work
collect-Settled_example =
    collect-Settled toy (work toy (message_of 2 (obj 6))) has_six
      (run-Settled toy 1 has_six has_six_step)

-- A runtime with two ready tasks that nothing has sent yet.
abbrev two_ready : Runtime toy
two_ready = record (init toy 1) {
  scheduler = record {
    ready_queue = spec_of 0 (obj 5) ∷ spec_of 2 (obj 6) ∷ [];
    pending_tasks = [];
    object_to_waiting = [];
  };
}

nothing_needed :
    All (λ spec. AllStored two_ready.object_store (spec_deps spec)) two_ready.scheduler.ready_queue
unfolding nano_ray.Dag.extract_dependencies nano_ray.Dag.collect_values nano_ray.Dag.collect_refs
    nano_ray.Dag.collect_item elem
nothing_needed = (λ d e. absurd (ground arith), (λ d e. absurd (ground arith), tt))
