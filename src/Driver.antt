-- ===== src/Driver.antt =====
-- python/nano_ray/driver.py: the class `Runtime`. The main thread's calls and the collector thread
-- meet in the object store, the table and the scheduler; each call is one step here (see
-- ObjectStore.Waiting for steps within the store). A call that would have to wait for an object
-- that is not there gives `none`.
pub mod Flush
mod Covered
mod Scheduling
pub mod Recovery
pub mod System
pub mod Meaning
pub mod Soundness
pub mod Preserved
pub mod Entry
pub mod Run
pub mod Results
pub mod Recoverable
pub mod Missing
pub mod Rebuild
pub mod Get
pub mod Turns
pub mod Arrival
pub mod Loss
pub mod Flying
pub mod Tracked
pub mod Quiet
pub mod Drain
pub mod Works
pub mod Placed
pub mod Submitted
pub mod Safety
use nano_ray.Prelude.{
  ℕ, zero, suc, ◌+◌, List, [], ◌∷◌, ◌++◌, Option, none, some, Bool, true, false, is_empty, length,
  if◌then◌else◌,
}
use nano_ray.Prelude.Maybe.{◌>>=◌}
use nano_ray.Values.{Value, task_error, Items, Fields, Func, TaskSpec}
use nano_ray.ObjectStore
use nano_ray.ObjectStore.{ObjectStore}
use nano_ray.Ownership
use nano_ray.Ownership.{OwnershipTable}
use nano_ray.Scheduler
use nano_ray.Scheduler.{Scheduler}
use nano_ray.Dag.{extract_dependencies, resolve_args}
use nano_ray.Worker.{Outcome, returned, raised, Platform, Message, Report}
use Prim.Native.String.{String}

-- `if self.object_store.contains(did): self.scheduler.on_object_ready(did)`, for each dependency.
unfoldable pub retrigger : ObjectStore → List ℕ → Scheduler → Scheduler
retrigger store [] s = s
retrigger store (did ∷ dids) s =
    retrigger store dids
      (if ObjectStore.contains did store then Scheduler.on_object_ready did s else s)

-- `dep_ids if dep_ids else None`
abbrev pub or_none : List ℕ → Option (List ℕ)
or_none [] = none
or_none (d ∷ ds) = some (d ∷ ds)

module _ (p : Platform) where
  -- The worker processes are counted. The collector thread runs while `running` is set.
  pub record Runtime : Type 0 where
    pub num_workers : ℕ
    pub object_store : ObjectStore
    pub ownership : OwnershipTable p.Bytes
    pub scheduler : Scheduler
    pub task_queue : List (Option (Message p))
    pub result_queue : List (Report p)
    pub next_id : ℕ
    pub workers : ℕ
    pub running : Bool

  unfoldable pub init : ℕ → Runtime
  init num_workers = record {
    num_workers = num_workers;
    object_store = ObjectStore.init;
    ownership = Ownership.init;
    scheduler = Scheduler.init;
    task_queue = [];
    result_queue = [];
    next_id = 0;
    workers = 0;
    running = false;
  }

  unfoldable pub start : Runtime → Runtime
  start r =
      if r.running then r else record r { running = true; workers = r.workers + r.num_workers }

  unfoldable pub sentinels : ℕ → List (Option (Message p))
  sentinels zero = []
  sentinels (suc n) = none ∷ sentinels n

  -- The workers end, by the sentinels or by `terminate`.
  unfoldable pub shutdown : Runtime → Runtime
  unfolding sentinels
  shutdown r =
      if r.running
      then record r {
        running = false;
        task_queue = r.task_queue ++ sentinels r.workers;
        workers = 0;
      }
      else r

  unfoldable pub next_unique_id : Runtime → ℕ × Runtime
  next_unique_id r = (r.next_id, record r { next_id = r.next_id + 1 })

  -- What `_flush_ready_tasks` does for one task: resolve, pickle, send.
  unfoldable pub send : TaskSpec → Runtime → Option Runtime
  send spec r = do
    (resolved_args, resolved_kwargs) ←
        resolve_args (λ o. ObjectStore.get_now o r.object_store) spec.args spec.kwargs
    let payload = p.dumps_task spec.func resolved_args resolved_kwargs
    some (record r {
      task_queue =
          r.task_queue
          ++ some (record { task_id = spec.task_id; object_id = spec.object_id; payload = payload })
            ∷ [];
    })

  -- The loop of `_flush_ready_tasks`. Each round takes a task off the ready queue, so its length
  -- bounds the rounds.
  unfoldable pub flush_rounds : ℕ → Runtime → Option Runtime
  unfolding send
  flush_rounds zero r = some r
  flush_rounds (suc n) r =
      let (popped, scheduler') = Scheduler.pop_ready_task r.scheduler in
      elim popped [
        | none ↦ some (record r { scheduler = scheduler' })
        | some spec ↦ send spec (record r { scheduler = scheduler' }) >>= λ r'. flush_rounds n r'
      ]

  unfoldable pub flush_ready_tasks : Runtime → Option Runtime
  unfolding flush_rounds
  flush_ready_tasks r = flush_rounds (length r.scheduler.ready_queue) r

  -- `submit_task` up to the flush: the object id, and the runtime.
  unfoldable pub enter_task : Func → Items → Fields → Runtime → ℕ × Runtime
  unfolding next_unique_id retrigger
  enter_task func args kwargs r =
      let (task_id, r₁) = next_unique_id r in
      let (object_id, r₂) = next_unique_id r₁ in
      let dep_ids = extract_dependencies args kwargs in
      let task_spec : TaskSpec = record {
        task_id = task_id;
        object_id = object_id;
        func = func;
        args = args;
        kwargs = kwargs;
      } in
      (
        object_id,
        record r₂ {
          ownership =
              Ownership.register_task task_id object_id p.getpid (p.qualname func)
                (p.dumps_task func args kwargs) (or_none dep_ids) r₂.ownership;
          scheduler =
              retrigger r₂.object_store dep_ids
                (Scheduler.submit task_spec (or_none dep_ids) r₂.scheduler);
        },
      )

  unfoldable pub submit_task : Func → Items → Fields → Runtime → Option (ℕ × Runtime)
  unfolding enter_task flush_ready_tasks
  submit_task func args kwargs r =
      let (object_id, r') = enter_task func args kwargs r in
      flush_ready_tasks r' >>= λ r''. some (object_id, r'')

  -- What the collector does with a result, up to the flush.
  unfoldable pub accept : ℕ → ℕ → Value → Runtime → Runtime
  accept task_id object_id value r = record r {
    object_store = ObjectStore.put object_id value r.object_store;
    ownership = Ownership.task_finished task_id r.ownership;
    scheduler = Scheduler.on_object_ready object_id r.scheduler;
  }

  -- What it does with a failure.
  unfoldable pub reject : ℕ → ℕ → String → Runtime → Runtime
  reject task_id object_id error r = record r {
    object_store = ObjectStore.put object_id (task_error task_id error) r.object_store;
    ownership = Ownership.task_failed task_id error r.ownership;
  }

  -- The body of the loop of `_collect_results`, for one report.
  unfoldable pub collect : Report p → Runtime → Option Runtime
  unfolding flush_ready_tasks accept reject
  collect report r = elim report.result [
    | returned bytes ↦
        flush_ready_tasks (accept report.task_id report.object_id (p.loads_value bytes) r)
    | raised error ↦ some (reject report.task_id report.object_id error r)
  ]

  unfoldable pub evict_object : ℕ → Runtime → Bool × Runtime
  evict_object object_id r =
      let (existed, store) = ObjectStore.delete object_id r.object_store in
      (existed, record r { object_store = store })
