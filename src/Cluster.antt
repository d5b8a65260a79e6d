-- ===== src/Cluster.antt =====
-- A head node (python/nano_ray/head.py) with worker nodes (python/nano_ray/node.py); the clients are in
-- Client. A request and its response are one step of the head, as each
-- connection carries one request at a time.
pub mod System
mod Answers
mod Polls
pub mod Values
mod Growth
pub mod Stable
use nano_ray.Prelude.{
  ℕ, ◌+◌, List, [], ◌∷◌, ◌++◌, Option, none, some, Bool, true, false, if◌then◌else◌,
}
use nano_ray.Prelude.Maybe.{◌>>=◌}
use nano_ray.Values.{Value, task_error, Items, Fields, Func}
use Prim.Native.String.{String}
use nano_ray.Worker.{Outcome, returned, raised, Platform, Message, Report}
use nano_ray.Driver.{sentinels}
use nano_ray.Dashboard.{Clock}
use nano_ray.Head.{
  Head, dispatch, Request, register_worker, submits, get_object, contains_object, poll_task,
  task_result, Response, ok, object_id, value, contains, no_task, task, ack, error,
}

module _ (p : Platform) (c : Clock) where
  pub record WorkerNode : Type 0 where
    pub num_workers : ℕ
    pub running : Bool
    pub workers : ℕ
    pub task_queue : List (Option (Message p))
    pub result_queue : List (Report p)

  unfoldable pub init : ℕ → WorkerNode
  init num_workers = record {
    num_workers = num_workers;
    running = false;
    workers = 0;
    task_queue = [];
    result_queue = [];
  }

  -- `start`, after the head's answer to the registration; `none` for the `RuntimeError`.
  unfoldable pub start : Response p c → WorkerNode → Option WorkerNode
  start ok n =
      some
        (if n.running then n else record n { running = true; workers = n.workers + n.num_workers })
  start _ n = if n.running then some n else none

  -- The body of `_poll_loop`, on the head's answer.
  unfoldable pub take_response : Response p c → WorkerNode → WorkerNode
  take_response (task m) n = record n { task_queue = n.task_queue ++ some m ∷ [] }
  take_response _ n = n

  -- The body of `_report_loop`: what is sent to the head, if a result is there.
  unfoldable pub take_report : WorkerNode → Option (Request p c) × WorkerNode
  take_report n = elim n.result_queue [
    | [] ↦ (none, n)
    | report ∷ rest ↦ (some (task_result report), record n { result_queue = rest })
  ]

  unfoldable pub shutdown : WorkerNode → WorkerNode
  shutdown n =
      if n.running
      then record n {
        running = false;
        task_queue = n.task_queue ++ sentinels p n.workers;
        workers = 0;
      }
      else n
