-- ===== src/Head/Agreement.antt =====
-- A head node (python/nano_ray/head.py) that has local workers, against the local runtime
-- (python/nano_ray/driver.py).
use nano_ray.Prelude.{
  ℕ, suc, ◌+◌, ◌≡◌, refl, ◌∙◌, ap, List, [], ◌∷◌, ◌++◌, Option, none, some, length, inl, inr,
  Option-cases,
}
use nano_ray.Prelude.Maybe.{◌>>=◌, map_some}
use nano_ray.Values.{Items, Fields, Func, TaskSpec}
use nano_ray.ObjectStore
use nano_ray.Dag.{resolve_args}
use nano_ray.Worker.{Platform, Message, Report, Outcome-cases}
use nano_ray.Driver
use nano_ray.Driver.{Runtime}
use nano_ray.Driver.Flush.{flush_one, flush_stuck, message}
use nano_ray.Scheduler.Index.{pop_ready_task_first}
use nano_ray.Dashboard.{Clock}
use nano_ray.Head
use nano_ray.Head.{
  Head, prepare_task, flush_rounds, flush_ready_tasks, enter_task, submit_task, accept,
  handle_task_result, on_metrics, completed,
}

module _ (p : Platform) (c : Clock) where
  -- What a head with the local task queue `queue` looks like as a local runtime.
  abbrev pub as_runtime : List (Option (Message p)) → Head p c → Runtime p
  as_runtime queue h = record {
    num_workers = h.num_local_workers;
    object_store = h.object_store;
    ownership = h.ownership;
    scheduler = h.scheduler;
    task_queue = queue;
    result_queue = [];
    next_id = h.next_id;
    workers = h.local_workers;
    running = h.running;
  }

  abbrev pub to_runtime : Head p c → Runtime p
  to_runtime h = elim h.local_task_queue [
    | none ↦ as_runtime [] h
    | some queue ↦ as_runtime queue h
  ]

  popped_one : TaskSpec → List TaskSpec → Head p c → Head p c
  popped_one spec specs h = record h { scheduler = record h.scheduler { ready_queue = specs } }

  flush_rounds_first :
      (spec : TaskSpec) (specs : List TaskSpec) (n : ℕ) (queue : List (Option (Message p)))
      (h : Head p c)
      → h.scheduler.ready_queue ≡ spec ∷ specs
      → flush_rounds p c (suc n) queue h ≡ (
          prepare_task p c spec (popped_one spec specs h) >>= λ m.
          flush_rounds p c n (queue ++ some m ∷ []) (popped_one spec specs h))
  unfolding flush_rounds popped_one
  flush_rounds_first spec specs n queue h e =
      rw (flush_rounds, pop_ready_task_first h.scheduler spec specs e)
        (rw (pop_ready_task_first h.scheduler spec specs e))

  flush_rounds-to_runtime :
      (ready : List TaskSpec) (queue : List (Option (Message p))) (h : Head p c)
      → h.scheduler.ready_queue ≡ ready
      → map_some to_runtime (flush_rounds p c (length ready) queue h)
        ≡ Driver.flush_rounds p (length ready) (as_runtime queue h)
  unfolding flush_rounds Driver.flush_rounds popped_one prepare_task
  flush_rounds-to_runtime [] queue h e = refl
  flush_rounds-to_runtime (spec ∷ specs) queue h e =
      elim (Option-cases
        (resolve_args (λ o. ObjectStore.get_now o h.object_store) spec.args spec.kwargs)) [
          | inl stuck ↦
              rw
                (
                  flush_rounds_first spec specs (length specs) queue h e,
                  flush_stuck p spec specs (length specs) (as_runtime queue h) e stuck,
                )
                (rw (prepare_task, stuck) refl)
          | inr ((a, k), found) ↦
              rw
                (
                  flush_rounds_first spec specs (length specs) queue h e,
                  flush_one p spec specs a k (length specs) (as_runtime queue h) e found,
                )
                (rw (prepare_task, found)
                  (flush_rounds-to_runtime specs (queue ++ some (message p spec a k) ∷ [])
                    (popped_one spec specs h) refl))
        ]

  flush-to_runtime :
      (queue : List (Option (Message p))) (h : Head p c)
      → h.local_task_queue ≡ some queue
      → map_some to_runtime (flush_ready_tasks p c h)
        ≡ Driver.flush_ready_tasks p (as_runtime queue h)
  unfolding flush_ready_tasks Driver.flush_ready_tasks
  flush-to_runtime queue h e =
      rw (flush_ready_tasks, e) (flush_rounds-to_runtime h.scheduler.ready_queue queue h refl)

  abbrev pub with_id : ℕ × Head p c → ℕ × Runtime p
  with_id (o, h) = (o, to_runtime h)

  metrics_aside :
      (f : Head p c → Head p c) (o : ℕ) (m : Option (Head p c))
      → ((h : Head p c) → to_runtime (f h) ≡ to_runtime h)
      → map_some with_id (m >>= λ h. some (o, f h)) ≡ (map_some to_runtime m >>= λ r. some (o, r))
  metrics_aside f o none same = refl
  metrics_aside f o (some h) same = ap (λ r. some (o, r)) (same h)

  -- A submission to a head with local workers does what a submission to the local runtime does, up
  -- to the metrics: it returns the same object id, and leaves the same store, table, scheduler and
  -- task queue.
  pub submit_task-to_runtime :
      (now : c.Time) (func : Func) (args : Items) (kwargs : Fields)
      (queue : List (Option (Message p))) (h : Head p c)
      → h.local_task_queue ≡ some queue
      → map_some with_id (submit_task p c now func args kwargs h)
        ≡ Driver.submit_task p func args kwargs (as_runtime queue h)
  unfolding submit_task enter_task Driver.submit_task Driver.enter_task
  submit_task-to_runtime now func args kwargs queue h e =
      metrics_aside (on_metrics p c _) (h.next_id + 1)
        (flush_ready_tasks p c (enter_task p c func args kwargs h).1) (λ h'. refl)
      ∙ ap (λ m. m >>= λ r. some (h.next_id + 1, r))
          (flush-to_runtime queue (enter_task p c func args kwargs h).1 e)

  results_aside :
      (f : Head p c → Head p c) (m : Option (Head p c))
      → ((h : Head p c) → to_runtime (f h) ≡ to_runtime h)
      → map_some to_runtime (m >>= λ h. some (f h)) ≡ map_some to_runtime m
  results_aside f none same = refl
  results_aside f (some h) same = ap some (same h)

  -- A head with local workers takes a report in as the local runtime does, up to the metrics.
  pub handle_task_result-to_runtime :
      (now after : c.Time) (report : Report p) (queue : List (Option (Message p))) (h : Head p c)
      → h.local_task_queue ≡ some queue
      → map_some to_runtime (handle_task_result p c now after report h)
        ≡ Driver.collect p report (as_runtime queue h)
  unfolding handle_task_result accept Head.reject Driver.collect Driver.accept Driver.reject
  handle_task_result-to_runtime now after report queue h e = elim (Outcome-cases report.result) [
    | inl (b, f) ↦
        rw (f, handle_task_result, Driver.collect)
          (results_aside (completed p c now after report.task_id)
              (flush_ready_tasks p c
                (accept p c report.task_id report.object_id (p.loads_value b) h))
              (λ h'. refl)
            ∙ flush-to_runtime queue
                (accept p c report.task_id report.object_id (p.loads_value b) h) e)
    | inr (m, f) ↦ rw (f, handle_task_result, Driver.collect) (rw e refl)
  ]
