-- ===== src/Tests/ExampleTests.antt =====
-- The programs under examples/ at concrete inputs.
use nano_ray.Prelude.{
  ℕ, ◌+◌, ◌*◌, ◌≡◌, refl, List, [], ◌∷◌, map, Option, none, some, ◌==◌, if◌then◌else◌,
}
use nano_ray.Values.{Value, obj, Items, Fields, Func, user}
use nano_ray.Worker.{Outcome, raised, Platform}
use nano_ray.Driver
use nano_ray.Driver.{Runtime}
use nano_ray.Driver.Run.{run-Sound}
use nano_ray.Driver.System.{lossless}
use nano_ray.Examples.WordCount.{
  count_of, word_count_map, word_count_reduce, occurs, all_words, word_count_reduce-occurs,
}
use nano_ray.Examples.Chain.{square, add, diamond}
use nano_ray.Examples.Lineage.{get_after_loss, diamond-Steps, get_after_loss-got}
use nano_ray.Answers.{done}
use nano_ray.Driver.Recoverable.{Ready, run-Ready, Steps-IsLater}
use nano_ray.Driver.System.{Steps}
use nano_ray.Driver.Turns.{take_turns, take_turns-Steps, wait_by_turns}
use nano_ray.Driver.Arrival.{wait_by_turns-IsWait}
use nano_ray.Tests.Data.{toy}

word_count_reduce-occurs_example :
    count_of 1 (
      word_count_reduce (
        map
          (word_count_map (λ text. text) (λ w. w) (λ w. w == 0))
          ((1 ∷ 2 ∷ 1 ∷ []) ∷ (0 ∷ 1 ∷ []) ∷ [])))
    ≡ occurs
        (λ text. text)
        (λ w. w)
        (λ w. w == 0)
        1
        (all_words (λ text. text) (λ w. w) (λ w. w == 0) ((1 ∷ 2 ∷ 1 ∷ []) ∷ (0 ∷ 1 ∷ []) ∷ []))
word_count_reduce-occurs_example =
    word_count_reduce-occurs (λ text. text) (λ w. w) (λ w. w == 0) 1
      ((1 ∷ 2 ∷ 1 ∷ []) ∷ (0 ∷ 1 ∷ []) ∷ [])

abbrev functions : Func → Items → Fields → Outcome Value
functions (user n) args kwargs = if n == 0 then square args kwargs else add args kwargs
functions _ args kwargs = raised "no function"

abbrev computing : Platform
computing = record toy { call = functions }

abbrev drawn : Runtime computing
drawn = elim (diamond computing 3 4 (Driver.init computing 1)) [
  | none ↦ Driver.init computing 1
  | some (refs, r) ↦ r
]

drawn_eq : diamond computing 3 4 (Driver.init computing 1) ≡ some ((1, 3, 5), drawn)
unfolding diamond nano_ray.Driver.init nano_ray.Driver.submit_task nano_ray.Driver.enter_task
    nano_ray.Driver.flush_ready_tasks nano_ray.Driver.flush_rounds nano_ray.Driver.send
    nano_ray.Driver.collect nano_ray.Driver.accept nano_ray.Driver.reject
    nano_ray.Driver.evict_object nano_ray.Driver.next_unique_id nano_ray.Driver.retrigger
    nano_ray.Dag.extract_dependencies nano_ray.Dag.collect_values nano_ray.Dag.collect_refs
    nano_ray.Dag.resolve_args nano_ray.Dag.resolve_items nano_ray.Dag.resolve_fields
    nano_ray.ObjectStore.init nano_ray.ObjectStore.contains nano_ray.ObjectStore.get_now
    nano_ray.ObjectStore.put nano_ray.ObjectStore.put_locked nano_ray.ObjectStore.signal
    nano_ray.ObjectStore.wait_locked nano_ray.ObjectStore.delete nano_ray.Prelude.Dict.contains
    nano_ray.Prelude.Dict.lookup nano_ray.Prelude.Dict.insert nano_ray.Prelude.Dict.erase
    nano_ray.Prelude.Dict.modify nano_ray.Prelude.Dict.get_field nano_ray.Scheduler.init
    nano_ray.Scheduler.submit nano_ray.Scheduler.index_all nano_ray.Scheduler.pop_ready_task
    nano_ray.Scheduler.on_object_ready nano_ray.Scheduler.unblock_all nano_ray.Scheduler.unblock
    nano_ray.Ownership.init nano_ray.Ownership.register_task nano_ray.Ownership.task_finished
    nano_ray.Ownership.task_failed nano_ray.Ownership.get_producer_task
    nano_ray.Ownership.get_task_lineage nano_ray.Prelude.discard nano_ray.Prelude.set_of
    nano_ray.Prelude.elem nano_ray.Worker.execute nano_ray.Worker.work
drawn_eq = refl

abbrev finished : Runtime computing
finished = elim (take_turns computing 9 5 drawn) [ none ↦ drawn | some r ↦ r ]

finished_values :
    (take_turns computing 9 5 drawn ≡ some finished) × (finished.scheduler.pending_tasks ≡ [])
unfolding take_turns nano_ray.Driver.Turns.one_turn diamond square add nano_ray.Driver.init
    nano_ray.Driver.submit_task nano_ray.Driver.enter_task nano_ray.Driver.flush_ready_tasks
    nano_ray.Driver.flush_rounds nano_ray.Driver.send nano_ray.Driver.collect nano_ray.Driver.accept
    nano_ray.Driver.reject nano_ray.Driver.evict_object nano_ray.Driver.next_unique_id
    nano_ray.Driver.retrigger nano_ray.Dag.extract_dependencies nano_ray.Dag.collect_values
    nano_ray.Dag.collect_refs nano_ray.Dag.resolve_args nano_ray.Dag.resolve_items
    nano_ray.Dag.resolve_fields nano_ray.ObjectStore.init nano_ray.ObjectStore.contains
    nano_ray.ObjectStore.get_now nano_ray.ObjectStore.put nano_ray.ObjectStore.put_locked
    nano_ray.ObjectStore.signal nano_ray.ObjectStore.wait_locked nano_ray.ObjectStore.delete
    nano_ray.Prelude.Dict.contains nano_ray.Prelude.Dict.lookup nano_ray.Prelude.Dict.insert
    nano_ray.Prelude.Dict.erase nano_ray.Prelude.Dict.modify nano_ray.Prelude.Dict.get_field
    nano_ray.Scheduler.init nano_ray.Scheduler.submit nano_ray.Scheduler.index_all
    nano_ray.Scheduler.pop_ready_task nano_ray.Scheduler.on_object_ready
    nano_ray.Scheduler.unblock_all nano_ray.Scheduler.unblock nano_ray.Ownership.init
    nano_ray.Ownership.register_task nano_ray.Ownership.task_finished nano_ray.Ownership.task_failed
    nano_ray.Ownership.get_producer_task nano_ray.Ownership.get_task_lineage
    nano_ray.Prelude.discard nano_ray.Prelude.set_of nano_ray.Prelude.elem nano_ray.Worker.execute
    nano_ray.Worker.work
finished_values = (refl, refl)

drawn-Ready : Ready computing drawn
drawn-Ready =
    run-Ready computing 1 drawn
      (diamond-Steps computing 3 4 1 3 5 (Driver.init computing 1) drawn drawn_eq)

finished-Steps : Steps computing drawn finished
finished-Steps = (take_turns-Steps computing 9 5 drawn finished finished_values.0).0

get_after_loss-got_example :
    (s' : Runtime computing) × (get_after_loss computing
        (wait_by_turns computing)
        3
        1
        3
        5
        (some 10)
        finished
      ≡ done (obj (3 * 3 + 4 * 4), s'))
get_after_loss-got_example =
    get_after_loss-got computing (λ args kwargs. refl) (λ args kwargs. refl) (λ n. (_, refl))
      (wait_by_turns computing) (wait_by_turns-IsWait computing) 3 4 1 3 5 (some 10)
      (Driver.init computing 1) drawn finished
      (run-Sound computing 1 (Driver.init computing 1) lossless) drawn_eq
      (Steps-IsLater computing drawn-Ready finished-Steps).ready finished_values.1
      (Steps-IsLater computing drawn-Ready finished-Steps).grows
