-- ===== src/Tests/RecoveryTests.antt =====
-- `reconstruct_object` and `get_object` of python/nano_ray/driver.py: two tasks, the second on the
-- first one's result; both results are evicted, and the second is asked for.
use nano_ray.Prelude.{
  ℕ, suc, ◌+◌, ◌≡◌, refl, ap, sym, subst, ==_iff, List, [], ◌∷◌, Option, none, some, ◌⊎◌, inl,
  arith, elem, true, false,
}
use Prim.Native.String.{String}
use nano_ray.Answers.{task_raised, done, failed, blocked, ◌>>=◌}
use nano_ray.Values.{Value, obj, object_ref, end, user}
use nano_ray.ObjectStore
use nano_ray.ObjectStore.Laws.{content}
use nano_ray.Ownership.{get_producer_task, get_task_lineage}
use nano_ray.Dag.{extract_dependencies}
use nano_ray.Worker.{work, execute}
use nano_ray.Driver.{Runtime, init, submit_task, collect, evict_object, flush_ready_tasks}
use nano_ray.Driver.Meaning.{AllDenote, Denotes}
use nano_ray.Driver.System.{finishes, collects, Steps, here, next}
use nano_ray.Driver.Recovery.{checked, reconstruct_object, get_object}
use nano_ray.Driver.Recoverable.{Ready, run-Ready, rebuilt}
use nano_ray.Driver.Missing.{IsWait, Gives}
use nano_ray.Driver.Rebuild.{reconstruct_object-total}
use nano_ray.Driver.Get.{get_object-total, get_object-Denotes, get_object_late}
use nano_ray.Driver.Turns.{wait_by_turns}
use nano_ray.Driver.Arrival.{wait_by_turns-IsWait}
use nano_ray.Driver.Loss.{
  evict_all, IsLoss, IsLoss-Grows, evict_all-IsLoss, IsTraced, IsTraced-later, submit_task-IsTraced,
  evict-get_object,
}
use nano_ray.Api.{get, get_list, reconstruct}
use nano_ray.Api.Get.{get_list-total, reconstruct-get}
use nano_ray.Tests.Data.{toy, task, one_arg}
use nano_ray.Tests.RuntimeTests.{message_of, first, worked, taken_in, has_six, has_six_step}

abbrev both : Runtime toy
both = taken_in 2 (obj 6) (worked 2 (obj 6) has_six)

both_values :
    (has_six.task_queue ≡ some (message_of 2 (obj 6)) ∷ [])
    × ((worked 2 (obj 6) has_six).result_queue ≡ work toy (message_of 2 (obj 6)) ∷ [])
    × (collect toy
          (work toy (message_of 2 (obj 6)))
          (record (worked 2 (obj 6) has_six) { result_queue = [] })
        ≡ some both)
    × (content both.object_store 3 ≡ some (obj 7))
    × (both.scheduler.pending_tasks ≡ [])
    × (ObjectStore.contains 1 both.object_store ≡ true)
unfolding init submit_task nano_ray.Driver.enter_task flush_ready_tasks nano_ray.Driver.flush_rounds
    nano_ray.Driver.send collect nano_ray.Driver.accept nano_ray.Driver.reject evict_object
    nano_ray.Driver.next_unique_id nano_ray.Driver.retrigger nano_ray.Dag.extract_dependencies
    nano_ray.Dag.collect_values nano_ray.Dag.collect_refs nano_ray.Dag.resolve_args
    nano_ray.Dag.resolve_items nano_ray.Dag.resolve_fields ObjectStore.init ObjectStore.contains
    ObjectStore.get_now ObjectStore.put ObjectStore.put_locked ObjectStore.signal
    ObjectStore.wait_locked ObjectStore.delete nano_ray.Prelude.Dict.contains
    nano_ray.Prelude.Dict.lookup nano_ray.Prelude.Dict.insert nano_ray.Prelude.Dict.erase
    nano_ray.Prelude.Dict.modify nano_ray.Prelude.Dict.get_field nano_ray.Scheduler.init
    nano_ray.Scheduler.submit nano_ray.Scheduler.index_all nano_ray.Scheduler.pop_ready_task
    nano_ray.Scheduler.on_object_ready nano_ray.Scheduler.unblock_all nano_ray.Scheduler.unblock
    nano_ray.Ownership.init nano_ray.Ownership.register_task nano_ray.Ownership.task_finished
    nano_ray.Ownership.task_failed nano_ray.Ownership.get_producer_task
    nano_ray.Ownership.get_task_lineage nano_ray.Prelude.discard nano_ray.Prelude.set_of
    nano_ray.Prelude.elem execute work
both_values = (refl, refl, refl, refl, refl, refl)

both_step : Steps toy (init toy 1) both
both_step =
    next (next has_six_step (finishes [] [] (message_of 2 (obj 6)) both_values.0 refl))
      (collects (work toy (message_of 2 (obj 6))) [] both_values.1 both_values.2)

both-Ready : Ready toy both
both-Ready = run-Ready toy 1 both both_step

abbrev lost : Runtime toy
lost = evict_all toy (1 ∷ 3 ∷ []) both

both-IsTraced_one : (n : ℕ) → IsTraced toy both (suc n) 1
unfolding init submit_task nano_ray.Driver.enter_task flush_ready_tasks nano_ray.Driver.flush_rounds
    nano_ray.Driver.send collect nano_ray.Driver.accept nano_ray.Driver.reject evict_object
    nano_ray.Driver.next_unique_id nano_ray.Driver.retrigger nano_ray.Dag.extract_dependencies
    nano_ray.Dag.collect_values nano_ray.Dag.collect_refs nano_ray.Dag.resolve_args
    nano_ray.Dag.resolve_items nano_ray.Dag.resolve_fields ObjectStore.init ObjectStore.contains
    ObjectStore.get_now ObjectStore.put ObjectStore.put_locked ObjectStore.signal
    ObjectStore.wait_locked ObjectStore.delete nano_ray.Prelude.Dict.contains
    nano_ray.Prelude.Dict.lookup nano_ray.Prelude.Dict.insert nano_ray.Prelude.Dict.erase
    nano_ray.Prelude.Dict.modify nano_ray.Prelude.Dict.get_field nano_ray.Scheduler.init
    nano_ray.Scheduler.submit nano_ray.Scheduler.index_all nano_ray.Scheduler.pop_ready_task
    nano_ray.Scheduler.on_object_ready nano_ray.Scheduler.unblock_all nano_ray.Scheduler.unblock
    nano_ray.Ownership.init nano_ray.Ownership.register_task nano_ray.Ownership.task_finished
    nano_ray.Ownership.task_failed nano_ray.Ownership.get_producer_task
    nano_ray.Ownership.get_task_lineage nano_ray.Prelude.discard nano_ray.Prelude.set_of
    nano_ray.Prelude.elem execute work
both-IsTraced_one n =
    rebuilt 0 (task (user 1) (one_arg (obj 5)) end) (user 1) (one_arg (obj 5)) end refl refl refl
      (λ d e. absurd (ground arith))

only_one : (d : ℕ) → elem d (extract_dependencies (one_arg (object_ref 1)) end) ≡ true → d ≡ 1
unfolding elem extract_dependencies nano_ray.Dag.collect_values nano_ray.Dag.collect_refs
    nano_ray.Dag.collect_item nano_ray.Prelude.set_of nano_ray.Prelude.discard
only_one d e = (==_iff d 1).0 (ground arith)

both-IsTraced_three : IsTraced toy both 2 3
unfolding init submit_task nano_ray.Driver.enter_task flush_ready_tasks nano_ray.Driver.flush_rounds
    nano_ray.Driver.send collect nano_ray.Driver.accept nano_ray.Driver.reject evict_object
    nano_ray.Driver.next_unique_id nano_ray.Driver.retrigger nano_ray.Dag.extract_dependencies
    nano_ray.Dag.collect_values nano_ray.Dag.collect_refs nano_ray.Dag.resolve_args
    nano_ray.Dag.resolve_items nano_ray.Dag.resolve_fields ObjectStore.init ObjectStore.contains
    ObjectStore.get_now ObjectStore.put ObjectStore.put_locked ObjectStore.signal
    ObjectStore.wait_locked ObjectStore.delete nano_ray.Prelude.Dict.contains
    nano_ray.Prelude.Dict.lookup nano_ray.Prelude.Dict.insert nano_ray.Prelude.Dict.erase
    nano_ray.Prelude.Dict.modify nano_ray.Prelude.Dict.get_field nano_ray.Scheduler.init
    nano_ray.Scheduler.submit nano_ray.Scheduler.index_all nano_ray.Scheduler.pop_ready_task
    nano_ray.Scheduler.on_object_ready nano_ray.Scheduler.unblock_all nano_ray.Scheduler.unblock
    nano_ray.Ownership.init nano_ray.Ownership.register_task nano_ray.Ownership.task_finished
    nano_ray.Ownership.task_failed nano_ray.Ownership.get_producer_task
    nano_ray.Ownership.get_task_lineage nano_ray.Prelude.discard nano_ray.Prelude.set_of
    nano_ray.Prelude.elem execute work
both-IsTraced_three =
    rebuilt 2 (task (user 1) (one_arg (object_ref 1)) end) (user 1) (one_arg (object_ref 1)) end
      refl refl refl
      (λ d e. subst (λ x. IsTraced toy both 1 x) (sym (only_one d e)) (both-IsTraced_one 0))

lost-IsLoss : IsLoss toy both lost
lost-IsLoss = evict_all-IsLoss toy (1 ∷ 3 ∷ []) both both_values.4 both-Ready

lost-Ready : Ready toy lost
lost-Ready = lost-IsLoss.ready

wait_by_turns-IsWait_example : IsWait toy (wait_by_turns toy)
wait_by_turns-IsWait_example = wait_by_turns-IsWait toy

reconstruct_object-total_example :
    (r' : Runtime toy) × (reconstruct_object toy (wait_by_turns toy) 3 3 lost ≡ done r')
    × Gives toy 3 lost r'
reconstruct_object-total_example =
    reconstruct_object-total toy (wait_by_turns toy) (wait_by_turns-IsWait toy) 2 3 lost lost-Ready
      (IsTraced-later toy both lost (IsLoss-Grows toy both lost lost-IsLoss) both-IsTraced_three)

get_object-total_example :
    (r' : Runtime toy) × (v : Value) × (get_object toy (wait_by_turns toy) 3 3 (some 10) lost
      ≡ (checked v >>= λ x. done (x, r')))
    × Gives toy 3 lost r'
    × Denotes toy r'.ownership 3 v
get_object-total_example =
    get_object-total toy (wait_by_turns toy) (wait_by_turns-IsWait toy) 2 3 (some 10) lost
      lost-Ready
      (IsTraced-later toy both lost (IsLoss-Grows toy both lost lost-IsLoss) both-IsTraced_three)

evict-get_object_example :
    (r' : Runtime toy) × (get_object toy (wait_by_turns toy) 3 3 none lost
      ≡ (checked (obj 7) >>= λ x. done (x, r')))
evict-get_object_example =
    evict-get_object toy (wait_by_turns toy) (wait_by_turns-IsWait toy) 2 3 (1 ∷ 3 ∷ []) none
      (obj 7) both both-Ready both_values.4 both-IsTraced_three both_values.3

got_again :
    (r' : Runtime toy) × (get_object toy (wait_by_turns toy) 3 3 none lost ≡ done (obj 7, r'))
got_again =
    evict-get_object toy (wait_by_turns toy) (wait_by_turns-IsWait toy) 2 3 (1 ∷ 3 ∷ []) none
      (obj 7) both both-Ready both_values.4 both-IsTraced_three both_values.3

get_object-Denotes_example :
    Steps toy lost got_again.0 × Denotes toy got_again.0.ownership 3 (obj 7)
get_object-Denotes_example =
    get_object-Denotes toy (wait_by_turns toy) (wait_by_turns-IsWait toy).runs 3 3 none lost
      got_again.0 (obj 7) lost-Ready got_again.1

first_values :
    (submit_task toy (user 1) (one_arg (obj 5)) end (init toy 1) ≡ some (1, first))
    × (ObjectStore.contains 1 first.object_store ≡ false)
    × (get_producer_task 1 first.ownership ≡ some 0)
    × (get_task_lineage 0 first.ownership
        ≡ some (task (user 1) (one_arg (obj 5)) end, extract_dependencies (one_arg (obj 5)) end))
unfolding init submit_task nano_ray.Driver.enter_task flush_ready_tasks nano_ray.Driver.flush_rounds
    nano_ray.Driver.send collect nano_ray.Driver.accept nano_ray.Driver.reject evict_object
    nano_ray.Driver.next_unique_id nano_ray.Driver.retrigger nano_ray.Dag.extract_dependencies
    nano_ray.Dag.collect_values nano_ray.Dag.collect_refs nano_ray.Dag.resolve_args
    nano_ray.Dag.resolve_items nano_ray.Dag.resolve_fields ObjectStore.init ObjectStore.contains
    ObjectStore.get_now ObjectStore.put ObjectStore.put_locked ObjectStore.signal
    ObjectStore.wait_locked ObjectStore.delete nano_ray.Prelude.Dict.contains
    nano_ray.Prelude.Dict.lookup nano_ray.Prelude.Dict.insert nano_ray.Prelude.Dict.erase
    nano_ray.Prelude.Dict.modify nano_ray.Prelude.Dict.get_field nano_ray.Scheduler.init
    nano_ray.Scheduler.submit nano_ray.Scheduler.index_all nano_ray.Scheduler.pop_ready_task
    nano_ray.Scheduler.on_object_ready nano_ray.Scheduler.unblock_all nano_ray.Scheduler.unblock
    nano_ray.Ownership.init nano_ray.Ownership.register_task nano_ray.Ownership.task_finished
    nano_ray.Ownership.task_failed nano_ray.Ownership.get_producer_task
    nano_ray.Ownership.get_task_lineage nano_ray.Prelude.discard nano_ray.Prelude.set_of
    nano_ray.Prelude.elem execute work
first_values = (refl, refl, refl, refl)

no_refs : {A : Type 0} (d : ℕ) → elem d (extract_dependencies (one_arg (obj 5)) end) ≡ true → A
unfolding elem extract_dependencies nano_ray.Dag.collect_values nano_ray.Dag.collect_refs
    nano_ray.Dag.collect_item nano_ray.Prelude.set_of nano_ray.Prelude.discard
no_refs d e = absurd (ground arith)

get_object_late_example : get_object toy (λ timeout o r. none) 5 1 (some 10) first ≡ blocked
get_object_late_example =
    get_object_late toy (λ timeout o r. none) 4 1 0 (some 10) (task (user 1) (one_arg (obj 5)) end)
      (user 1) (one_arg (obj 5)) end first first_values.1 first_values.2 first_values.3 refl
      (λ d e. no_refs d e) (λ r'. refl)

submit_task-IsTraced_example : IsTraced toy first 1 1
submit_task-IsTraced_example =
    submit_task-IsTraced toy 0 (user 1) (one_arg (obj 5)) end 1 (init toy 1) first
      (run-Ready toy 1 (init toy 1) here).sound (λ d e. no_refs d e) first_values.0

get_list-total_example :
    ((vs : List Value) × (r' : Runtime toy) × (get_list toy
          (wait_by_turns toy)
          3
          (1 ∷ 3 ∷ [])
          none
          (some lost)
        ≡ done (vs, some r'))
      × Steps toy lost r'
      × AllDenote toy r'.ownership (1 ∷ 3 ∷ []) vs)
    ⊎ ((t : ℕ) × (msg : String) × (get_list toy (wait_by_turns toy) 3 (1 ∷ 3 ∷ []) none (some lost)
          ≡ failed (task_raised t msg)))
get_list-total_example =
    get_list-total toy (wait_by_turns toy) (wait_by_turns-IsWait toy) 2 (1 ∷ 3 ∷ []) none lost
      lost-Ready
      (
        IsTraced-later toy both lost (IsLoss-Grows toy both lost lost-IsLoss) (both-IsTraced_one 1),
        (
          IsTraced-later toy both lost (IsLoss-Grows toy both lost lost-IsLoss) both-IsTraced_three,
          tt,
        ),
      )

reconstruct-get_example :
    reconstruct toy (wait_by_turns toy) 3 1 (some both)
    ≡ get toy (wait_by_turns toy) 3 1 (some 10) (some both)
reconstruct-get_example =
    reconstruct-get toy (wait_by_turns toy) (wait_by_turns-IsWait toy).runs 2 1 (some 10) both
      both-Ready (inl both_values.5)
