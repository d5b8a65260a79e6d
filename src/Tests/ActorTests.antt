-- ===== src/Tests/ActorTests.antt =====
-- An actor of python/nano_ray/actor.py that counts.
use nano_ray.Prelude.{ℕ, Option, none, some, ◌+◌, ◌≡◌, refl, List, [], ◌∷◌}
use nano_ray.Values.{Value, obj, actor_state, Items, nil, cons, end}
use nano_ray.Worker.{Outcome, returned, raised, Platform}
use nano_ray.Dag.{resolve, resolve_items, resolve_fields, resolve_args}
use nano_ray.Driver
use nano_ray.Driver.{Runtime}
use nano_ray.Driver.System.{lossless}
use nano_ray.Driver.Run.{run-Sound}
use nano_ray.Driver.Meaning.{Denotes, AllDenote}
use nano_ray.Tests.Data.{toy}
use nano_ray.Actor.Calls.{call_all, Returns, no_call, one_call, create-Denotes, actor-AllDenote}
use nano_ray.Driver.Soundness.{Sound}
use nano_ray.Actor.{Classes, instance_in, run_func, ActorHandle, create, call_remote}
use nano_ray.Actor.Meaning.{MethodCall}
use nano_ray.Actor.Failures.{AllFail, raised-AllFail}

abbrev add_to : Value → Items → Outcome (Value × Value)
add_to (obj n) (cons (obj k) nil) = returned (obj (n + k), obj (n + k))
add_to _ _ = raised "TypeError"

abbrev counter : Classes
counter = record {
  function = λ f args kwargs. raised "no function";
  construct = λ cls args kwargs. returned (obj 0);
  method = λ m instance₁ args kwargs. add_to instance₁ args;
}

abbrev calls : List MethodCall
calls =
    record { method_name = 0; args = cons (obj 2) nil; kwargs = end }
    ∷ record { method_name = 0; args = cons (obj 3) nil; kwargs = end }
    ∷ []

-- A platform whose tasks are those of the counter.
abbrev acting : Platform
acting = record toy { call = run_func counter }

abbrev created : Option (ActorHandle × Runtime acting)
created = create acting 0 nil end (Driver.init acting 1)

abbrev handle_of : Option (ActorHandle × Runtime acting) → ActorHandle
handle_of none = record { cls = 0; actor_id = 0; last_ref = 0 }
handle_of (some (handle, r)) = handle

abbrev runtime_of : Option (ActorHandle × Runtime acting) → Runtime acting
runtime_of none = Driver.init acting 1
runtime_of (some (handle, r)) = r

abbrev refs_of : Option (List ℕ × ActorHandle × Runtime acting) → List ℕ
refs_of none = []
refs_of (some (refs, handle, r)) = refs

abbrev handle_after : Option (List ℕ × ActorHandle × Runtime acting) → ActorHandle
handle_after none = record { cls = 0; actor_id = 0; last_ref = 0 }
handle_after (some (refs, handle, r)) = handle

abbrev runtime_after : Option (List ℕ × ActorHandle × Runtime acting) → Runtime acting
runtime_after none = Driver.init acting 1
runtime_after (some (refs, handle, r)) = r

abbrev called : Option (List ℕ × ActorHandle × Runtime acting)
called = call_all acting calls (handle_of created) (runtime_of created)

actor_values :
    (create acting 0 nil end (Driver.init acting 1) ≡ some (handle_of created, runtime_of created))
    × (call_all acting calls (handle_of created) (runtime_of created)
        ≡ some (6 ∷ 10 ∷ [], handle_after called, runtime_after called))
unfolding call_all create call_remote nano_ray.Driver.init nano_ray.Driver.submit_task
    nano_ray.Driver.enter_task nano_ray.Driver.flush_ready_tasks nano_ray.Driver.flush_rounds
    nano_ray.Driver.send nano_ray.Driver.collect nano_ray.Driver.accept nano_ray.Driver.reject
    nano_ray.Driver.evict_object nano_ray.Driver.next_unique_id nano_ray.Driver.retrigger
    nano_ray.Dag.extract_dependencies nano_ray.Dag.collect_values nano_ray.Dag.collect_refs
    nano_ray.Dag.resolve_args nano_ray.Dag.resolve_items nano_ray.Dag.resolve_fields
    nano_ray.ObjectStore.init nano_ray.ObjectStore.contains nano_ray.ObjectStore.get_now
    nano_ray.ObjectStore.put nano_ray.ObjectStore.put_locked nano_ray.ObjectStore.signal
    nano_ray.ObjectStore.wait_locked nano_ray.ObjectStore.delete nano_ray.Prelude.Dict.contains
    nano_ray.Prelude.Dict.lookup nano_ray.Prelude.Dict.insert nano_ray.Prelude.Dict.erase
    nano_ray.Prelude.Dict.modify nano_ray.Prelude.Dict.get_field nano_ray.Scheduler.init
    nano_ray.Scheduler.submit nano_ray.Scheduler.index_all nano_ray.Scheduler.pop_ready_task
    nano_ray.Scheduler.on_object_ready nano_ray.Scheduler.unblock_all nano_ray.Scheduler.unblock
    nano_ray.Ownership.init nano_ray.Ownership.register_task nano_ray.Ownership.task_finished
    nano_ray.Ownership.task_failed nano_ray.Ownership.get_producer_task
    nano_ray.Ownership.get_task_lineage nano_ray.Prelude.discard nano_ray.Prelude.set_of
    nano_ray.Prelude.elem nano_ray.Worker.execute nano_ray.Worker.work
actor_values = (refl, refl)

counts : Returns acting counter (obj 0) calls (obj 2 ∷ obj 5 ∷ [])
unfolding resolve_args resolve_items resolve_fields resolve
counts = one_call refl refl (_, refl) (_, refl) (one_call refl refl (_, refl) (_, refl) no_call)

actor-AllDenote_example :
    AllDenote acting (runtime_after called).ownership (6 ∷ 10 ∷ []) (obj 2 ∷ obj 5 ∷ [])
unfolding resolve_args resolve_items resolve_fields
actor-AllDenote_example =
    actor-AllDenote acting counter 0 nil end (obj 0) calls (6 ∷ 10 ∷ []) (obj 2 ∷ obj 5 ∷ [])
      (handle_of created) (handle_after called) (Driver.init acting 1) (runtime_of created)
      (runtime_after called) (λ f a k. refl) (run-Sound acting 1 (Driver.init acting 1) lossless)
      refl refl (_, refl) counts actor_values.0 actor_values.1

-- A call without its argument, and one more.
abbrev wrong_call : MethodCall
wrong_call = record { method_name = 0; args = nil; kwargs = end }

abbrev good_calls : List MethodCall
good_calls = record { method_name = 0; args = cons (obj 3) nil; kwargs = end } ∷ []

abbrev broken : Option (List ℕ × ActorHandle × Runtime acting)
broken = call_all acting (wrong_call ∷ good_calls) (handle_of created) (runtime_of created)

broken_refs :
    call_all acting (wrong_call ∷ good_calls) (handle_of created) (runtime_of created)
    ≡ some (6 ∷ 10 ∷ [], handle_after broken, runtime_after broken)
unfolding call_all create call_remote nano_ray.Driver.init nano_ray.Driver.submit_task
    nano_ray.Driver.enter_task nano_ray.Driver.flush_ready_tasks nano_ray.Driver.flush_rounds
    nano_ray.Driver.send nano_ray.Driver.collect nano_ray.Driver.accept nano_ray.Driver.reject
    nano_ray.Driver.evict_object nano_ray.Driver.next_unique_id nano_ray.Driver.retrigger
    nano_ray.Dag.extract_dependencies nano_ray.Dag.collect_values nano_ray.Dag.collect_refs
    nano_ray.Dag.resolve_args nano_ray.Dag.resolve_items nano_ray.Dag.resolve_fields
    nano_ray.ObjectStore.init nano_ray.ObjectStore.contains nano_ray.ObjectStore.get_now
    nano_ray.ObjectStore.put nano_ray.ObjectStore.put_locked nano_ray.ObjectStore.signal
    nano_ray.ObjectStore.wait_locked nano_ray.ObjectStore.delete nano_ray.Prelude.Dict.contains
    nano_ray.Prelude.Dict.lookup nano_ray.Prelude.Dict.insert nano_ray.Prelude.Dict.erase
    nano_ray.Prelude.Dict.modify nano_ray.Prelude.Dict.get_field nano_ray.Scheduler.init
    nano_ray.Scheduler.submit nano_ray.Scheduler.index_all nano_ray.Scheduler.pop_ready_task
    nano_ray.Scheduler.on_object_ready nano_ray.Scheduler.unblock_all nano_ray.Scheduler.unblock
    nano_ray.Ownership.init nano_ray.Ownership.register_task nano_ray.Ownership.task_finished
    nano_ray.Ownership.task_failed nano_ray.Ownership.get_producer_task
    nano_ray.Ownership.get_task_lineage nano_ray.Prelude.discard nano_ray.Prelude.set_of
    nano_ray.Prelude.elem nano_ray.Worker.execute nano_ray.Worker.work
broken_refs = refl

created-Denotes :
    Sound acting (runtime_of created)
    × Denotes acting
        (runtime_of created).ownership
        (handle_of created).last_ref
        (actor_state (obj 0))
unfolding resolve_args resolve_items resolve_fields
created-Denotes =
    create-Denotes acting counter (λ f a k. refl) 0 nil end (obj 0) (handle_of created)
      (Driver.init acting 1) (runtime_of created)
      (run-Sound acting 1 (Driver.init acting 1) lossless) refl refl (_, refl) actor_values.0

raised-AllFail_example : AllFail acting counter (runtime_after broken) (6 ∷ 10 ∷ [])
unfolding resolve_args resolve_items resolve_fields resolve instance_in
raised-AllFail_example =
    raised-AllFail acting counter wrong_call good_calls (handle_of created) (handle_after broken)
      (actor_state (obj 0)) (obj 0) "TypeError" (6 ∷ 10 ∷ []) (runtime_of created)
      (runtime_after broken) (λ f a k. refl) created-Denotes.0 (refl, (refl, tt)) created-Denotes.1
      refl refl broken_refs
