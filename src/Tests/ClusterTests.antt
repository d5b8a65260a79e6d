-- ===== src/Tests/ClusterTests.antt =====
-- A cluster of python/nano_ray: a client submits a task, node 0 polls it, a process of the node runs it
-- and the node reports.
use nano_ray.Prelude.{ℕ, ◌≡◌, refl, List, [], ◌∷◌, Option, none, some}
use nano_ray.Values.{obj, end, user}
use nano_ray.ObjectStore
use nano_ray.ObjectStore.Laws.{content}
use nano_ray.Worker.{Message, Report, returned, work}
use nano_ray.Driver.Meaning.{Denotes}
use nano_ray.Head
use nano_ray.Head.{
  Head, Request, submits, poll_task, task_result, Response, object_id, task, ack, dispatch,
}
use nano_ray.Cluster.{take_response}
use nano_ray.Cluster.System.{
  Cluster, update, asks, polls, works, reports, fresh, Reach, at_start, then_step,
}
use nano_ray.Cluster.Values.{cluster-Denotes}
use nano_ray.Tests.Data.{toy, ticks, task as pickled, one_arg}

abbrev pub sizes : ℕ → ℕ
sizes i = 1

abbrev next_head : Request toy ticks → Head toy ticks → Head toy ticks
next_head request h = elim (dispatch toy ticks 1 1 request 0 h) [
  | none ↦ h
  | some (response, h') ↦ h'
]

abbrev message : Message toy
message = record { task_id = 0; object_id = 1; payload = pickled (user 1) (one_arg (obj 5)) end }

abbrev asked : Cluster toy ticks
asked = record (fresh toy ticks sizes) {
  head = next_head (submits (user 1) (one_arg (obj 5)) end) (Head.init toy ticks 0);
}

abbrev polled : Cluster toy ticks
polled = record {
  head = next_head poll_task asked.head;
  nodes = update toy ticks asked.nodes 0 (take_response toy ticks (task message) (asked.nodes 0));
}

abbrev worked : Cluster toy ticks
worked = record polled {
  nodes =
      update toy ticks polled.nodes 0
        (record (polled.nodes 0) { task_queue = []; result_queue = work toy message ∷ [] });
}

abbrev pub reported : Cluster toy ticks
reported = record {
  head = next_head (task_result (work toy message)) worked.head;
  nodes = update toy ticks worked.nodes 0 (record (worked.nodes 0) { result_queue = [] });
}

pub run_values :
    (dispatch toy ticks 1 1 (submits (user 1) (one_arg (obj 5)) end) 0 (Head.init toy ticks 0)
      ≡ some (object_id 1, asked.head))
    × (dispatch toy ticks 1 1 poll_task 0 asked.head ≡ some (task message, polled.head))
    × ((polled.nodes 0).task_queue ≡ some message ∷ [])
    × (dispatch toy ticks 1 1 (task_result (work toy message)) 0 worked.head
        ≡ some (ack, reported.head))
    × (content reported.head.object_store 1 ≡ some (obj 6))
unfolding dispatch nano_ray.Head.init nano_ray.Head.submit_task nano_ray.Head.enter_task
    nano_ray.Head.next_unique_id nano_ray.Head.flush_ready_tasks nano_ray.Head.poll
    nano_ray.Head.prepare_task nano_ray.Head.handle_task_result nano_ray.Head.accept
    nano_ray.Head.reject take_response nano_ray.Cluster.init nano_ray.Dashboard.on_task_submitted
    nano_ray.Driver.retrigger nano_ray.Dag.extract_dependencies nano_ray.Dag.collect_values
    nano_ray.Dag.collect_refs nano_ray.Dag.resolve_args nano_ray.Dag.resolve_items
    nano_ray.Dag.resolve_fields ObjectStore.init ObjectStore.contains ObjectStore.get_now
    ObjectStore.put ObjectStore.put_locked ObjectStore.signal ObjectStore.wait_locked
    nano_ray.Prelude.Dict.contains nano_ray.Prelude.Dict.lookup nano_ray.Prelude.Dict.insert
    nano_ray.Prelude.Dict.erase nano_ray.Prelude.Dict.modify nano_ray.Scheduler.init
    nano_ray.Scheduler.submit nano_ray.Scheduler.pop_ready_task nano_ray.Scheduler.on_object_ready
    nano_ray.Scheduler.unblock_all nano_ray.Ownership.init nano_ray.Ownership.register_task
    nano_ray.Ownership.task_finished work nano_ray.Worker.execute
run_values = (refl, refl, refl, refl, refl)

pub reported-Reach : Reach toy ticks sizes reported
unfolding take_response nano_ray.Cluster.init
reported-Reach =
    then_step
      (then_step
        (then_step
          (then_step at_start (
            asks 1 1 (submits (user 1) (one_arg (obj 5)) end) 0 (object_id 1) asked.head tt
              run_values.0 refl))
          (polls 1 1 0 0 (task message) polled.head run_values.1 refl))
        (works 0 [] [] message run_values.2 refl))
      (reports 1 1 0 0 (work toy message) [] ack reported.head refl run_values.3 refl)

cluster-Denotes_example : Denotes toy reported.head.ownership 1 (obj 6)
cluster-Denotes_example =
    cluster-Denotes toy ticks sizes reported 1 (obj 6) reported-Reach run_values.4
