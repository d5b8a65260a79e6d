-- ===== src/Head.antt =====
-- python/nano_ray/head.py: the class `HeadService`. A connection is a number. The messages of
-- clients and workers are taken as unpickled (python/nano_ray/transport.py); the clock readings that
-- the metrics take are arguments. A call that would have to wait for an object gives `none`.
pub mod Agreement
pub mod Polling
pub mod Connection
use Prim.Native.String.{String}
use nano_ray.Prelude.{
  ℕ, zero, suc, ◌+◌, List, [], ◌∷◌, ◌++◌, Option, none, some, Bool, true, false, length, ◌==◌,
  if◌then◌else◌,
}
use nano_ray.Prelude.Maybe.{◌>>=◌, map_some}
use nano_ray.Values.{Value, task_error, Items, Fields, Func, TaskSpec}
use nano_ray.ObjectStore
use nano_ray.ObjectStore.{ObjectStore}
use nano_ray.Ownership
use nano_ray.Ownership.{OwnershipTable}
use nano_ray.Scheduler
use nano_ray.Scheduler.{Scheduler}
use nano_ray.Dag.{extract_dependencies, resolve_args}
use nano_ray.Worker.{Outcome, returned, raised, Platform, Message, Report}
use nano_ray.Driver.{or_none, retrigger, sentinels}
use nano_ray.Dashboard
use nano_ray.Dashboard.{Clock, DashboardMetrics}

module _ (p : Platform) (c : Clock) where
  pub record Head : Type 0 where
    pub object_store : ObjectStore
    pub ownership : OwnershipTable p.Bytes
    pub scheduler : Scheduler
    pub next_id : ℕ
    pub running : Bool
    pub worker_conns : List ℕ
    pub local_workers : ℕ
    pub num_local_workers : ℕ
    pub local_task_queue : Option (List (Option (Message p)))
    pub metrics : Option (DashboardMetrics c)

  unfoldable pub init : ℕ → Head
  init num_workers = record {
    object_store = ObjectStore.init;
    ownership = Ownership.init;
    scheduler = Scheduler.init;
    next_id = 0;
    running = false;
    worker_conns = [];
    local_workers = 0;
    num_local_workers = num_workers;
    local_task_queue = none;
    metrics = none;
  }

  -- `if self._metrics is not None: ...`
  abbrev pub on_metrics : (DashboardMetrics c → DashboardMetrics c) → Head → Head
  on_metrics f h = record h { metrics = map_some f h.metrics }

  unfoldable pub next_unique_id : Head → ℕ × Head
  next_unique_id h = (h.next_id, record h { next_id = h.next_id + 1 })

  -- The message to a worker, with the payload of `_prepare_task_payload`.
  unfoldable pub prepare_task : TaskSpec → Head → Option (Message p)
  prepare_task spec h = do
    (resolved_args, resolved_kwargs) ←
        resolve_args (λ o. ObjectStore.get_now o h.object_store) spec.args spec.kwargs
    some (record {
      task_id = spec.task_id;
      object_id = spec.object_id;
      payload = p.dumps_task spec.func resolved_args resolved_kwargs;
    })

  -- The loop of `_flush_ready_tasks`, over a local task queue.
  unfoldable pub flush_rounds : ℕ → List (Option (Message p)) → Head → Option Head
  unfolding prepare_task
  flush_rounds zero queue h = some (record h { local_task_queue = some queue })
  flush_rounds (suc n) queue h =
      let (popped, scheduler') = Scheduler.pop_ready_task h.scheduler in
      elim popped [
        | none ↦ some (record h { scheduler = scheduler'; local_task_queue = some queue })
        | some spec ↦ prepare_task spec (record h { scheduler = scheduler' }) >>= λ m.
            flush_rounds n (queue ++ some m ∷ []) (record h { scheduler = scheduler' })
      ]

  unfoldable pub flush_ready_tasks : Head → Option Head
  unfolding flush_rounds
  flush_ready_tasks h = elim h.local_task_queue [
    | none ↦ some h
    | some queue ↦ flush_rounds (length h.scheduler.ready_queue) queue h
  ]

  -- `_submit_task` up to the flush.
  unfoldable pub enter_task : Func → Items → Fields → Head → (ℕ × ℕ) × Head
  unfolding next_unique_id
  enter_task func args kwargs h =
      let (task_id, h₁) = next_unique_id h in
      let (object_id, h₂) = next_unique_id h₁ in
      let dep_ids = extract_dependencies args kwargs in
      let task_spec : TaskSpec = record {
        task_id = task_id;
        object_id = object_id;
        func = func;
        args = args;
        kwargs = kwargs;
      } in
      (
        (task_id, object_id),
        record h₂ {
          ownership =
              Ownership.register_task task_id object_id p.getpid (p.qualname func)
                (p.dumps_task func args kwargs) (or_none dep_ids) h₂.ownership;
          scheduler =
              retrigger h₂.object_store dep_ids
                (Scheduler.submit task_spec (or_none dep_ids) h₂.scheduler);
        },
      )

  unfoldable pub submit_task : c.Time → Func → Items → Fields → Head → Option (ℕ × Head)
  unfolding enter_task flush_ready_tasks
  submit_task now func args kwargs h =
      let ((task_id, object_id), h') = enter_task func args kwargs h in
      flush_ready_tasks h' >>= λ h''.
      some (object_id, on_metrics (Dashboard.on_task_submitted c now task_id) h'')

  unfoldable pub accept : ℕ → ℕ → Value → Head → Head
  accept task_id object_id value h = record h {
    object_store = ObjectStore.put object_id value h.object_store;
    ownership = Ownership.task_finished task_id h.ownership;
    scheduler = Scheduler.on_object_ready object_id h.scheduler;
  }

  unfoldable pub reject : ℕ → ℕ → String → Head → Head
  reject task_id object_id error h = record h {
    object_store = ObjectStore.put object_id (task_error task_id error) h.object_store;
    ownership = Ownership.task_failed task_id error h.ownership;
  }

  -- The metrics after a success.
  abbrev pub completed : c.Time → c.Time → ℕ → Head → Head
  completed now after task_id h =
      on_metrics
        (λ m.
          Dashboard.set_objects_stored c (ObjectStore.size h.object_store)
            (Dashboard.on_task_completed c now after task_id m))
        h

  unfoldable pub handle_task_result : c.Time → c.Time → Report p → Head → Option Head
  unfolding flush_ready_tasks accept reject
  handle_task_result now after report h = elim report.result [
    | returned bytes ↦
        flush_ready_tasks (accept report.task_id report.object_id (p.loads_value bytes) h) >>= λ h'.
        some (completed now after report.task_id h')
    | raised traceback ↦ some (
        on_metrics (Dashboard.on_task_failed c report.task_id)
          (reject report.task_id report.object_id traceback h))
  ]

  pub data Request : Type 0 where
    register_worker : Request
    submits : (func : Func) (args : Items) (kwargs : Fields) → Request
    get_object : (object_id : ℕ) → Request
    contains_object : (object_id : ℕ) → Request
    poll_task : Request
    task_result : (report : Report p) → Request
    unknown : (cmd : String) → Request

  pub data Response : Type 0 where
    ok : Response
    object_id : ℕ → Response
    value : Value → Response
    contains : Bool → Response
    no_task : Response
    task : Message p → Response
    ack : Response
    error : (cmd : String) → Response

  -- The branch `poll_task` of `_dispatch`, behind the pop and whole.
  abbrev pub poll_popped : Option TaskSpec → Head → Option (Response × Head)
  poll_popped none h = some (no_task, h)
  poll_popped (some spec) h = prepare_task spec h >>= λ m. some (task m, h)

  unfoldable pub poll : Head → Option (Response × Head)
  poll h =
      let (popped, scheduler') = Scheduler.pop_ready_task h.scheduler in
      poll_popped popped (record h { scheduler = scheduler' })

  unfoldable pub dispatch : c.Time → c.Time → Request → ℕ → Head → Option (Response × Head)
  unfolding submit_task handle_task_result poll
  dispatch now after register_worker conn h =
      let h' : Head = record h { worker_conns = h.worker_conns ++ conn ∷ [] } in
      some (
        ok,
        on_metrics (Dashboard.set_worker_count c (h'.num_local_workers + length h'.worker_conns))
            h',
      )
  dispatch now after (submits func args kwargs) conn h =
      submit_task now func args kwargs h >>= λ (o, h'). some (object_id o, h')
  dispatch now after (get_object o) conn h =
      ObjectStore.get_now o h.object_store >>= λ v. some (value v, h)
  dispatch now after (contains_object o) conn h =
      some (contains (ObjectStore.contains o h.object_store), h)
  dispatch now after poll_task conn h = poll h
  dispatch now after (task_result report) conn h =
      handle_task_result now after report h >>= λ h'. some (ack, h')
  dispatch now after (unknown cmd) conn h = some (error cmd, h)

  -- `list.remove`: the first occurrence goes.
  unfoldable pub remove : ℕ → List ℕ → List ℕ
  remove conn [] = []
  remove conn (d ∷ ds) = if d == conn then ds else d ∷ remove conn ds

  -- The end of `_handle_connection`.
  unfoldable pub disconnect : ℕ → Head → Head
  unfolding remove
  disconnect conn h = record h { worker_conns = remove conn h.worker_conns }

  unfoldable pub shutdown : Head → Head
  shutdown h =
      if h.running
      then record h {
        running = false;
        local_task_queue =
            map_some (λ queue. queue ++ sentinels p h.local_workers) h.local_task_queue;
        local_workers = 0;
        worker_conns = [];
      }
      else h
