-- ===== src/Cluster/Answers.antt =====
-- What submissions and reports do to the head of a cluster of python/nano_ray, seen with one node.
use nano_ray.Prelude.{ℕ, ◌≡◌, refl, sym, ◌∙◌, ap, subst, List, Option, none, some, length, inl, inr}
use nano_ray.Prelude.Maybe.{◌>>=◌, >>=-eq-some}
use mathlib.Core.Option.{some-injective}
use nano_ray.Values.{task_error, Items, Fields, Func}
use nano_ray.Ownership.Calls
use nano_ray.Scheduler
use nano_ray.Scheduler.{Scheduler}
use nano_ray.Scheduler.Specs.{on_object_ready-AllSpecs}
use nano_ray.Worker.{Platform, Message, Report, Outcome-cases, stored_value}
use nano_ray.Driver.{Runtime}
use nano_ray.Driver
use nano_ray.Driver.Meaning.{Denotes}
use nano_ray.Driver.Soundness.{ReportOk, Sound}
use nano_ray.Driver.Preserved.{stored-Sound}
use nano_ray.Driver.Entry.{enter-Sound}
use nano_ray.Dashboard
use nano_ray.Dashboard.{Clock}
use nano_ray.Head
use nano_ray.Head.{
  Head, Request, register_worker, submits, get_object, contains_object, poll_task, task_result,
  unknown, Response, task, no_task, dispatch, disconnect, flush_ready_tasks, enter_task,
  submit_task, handle_task_result, accept, poll, poll_popped, prepare_task,
}
use nano_ray.Cluster.{WorkerNode}

module _ (p : Platform) (c : Clock) where
  -- The head and one node's queues, as a local runtime.
  abbrev pub view : Head p c → WorkerNode p c → Runtime p
  view h n = record {
    num_workers = n.num_workers;
    object_store = h.object_store;
    ownership = h.ownership;
    scheduler = h.scheduler;
    task_queue = n.task_queue;
    result_queue = n.result_queue;
    next_id = h.next_id;
    workers = n.workers;
    running = n.running;
  }

  -- `h'` has no local workers, and is sound wherever `h` is.
  abbrev pub Keeps : Head p c → Head p c → Type 0
  Keeps h h' =
      (h'.local_task_queue ≡ none)
      × ((n : WorkerNode p c) → Sound p (view h n) → Sound p (view h' n))

  -- The flush of a head without local workers does nothing.
  pub flush_idle : (h : Head p c) → h.local_task_queue ≡ none → flush_ready_tasks p c h ≡ some h
  unfolding flush_ready_tasks
  flush_idle h e =
      ap
        (λ (q : Option (List (Option (Message p)))). elim q as (λ _. Option (Head p c)) [
          | none ↦ some h
          | some queue ↦ Head.flush_rounds p c (length h.scheduler.ready_queue) queue h
        ])
        e

  -- A submission.
  pub submit-IsSound :
      (now : c.Time) (func : Func) (args : Items) (kwargs : Fields) (h h' : Head p c) (o : ℕ)
      → h.local_task_queue ≡ none
      → submit_task p c now func args kwargs h ≡ some (o, h')
      → Keeps h h'
  unfolding submit_task enter_task Driver.enter_task
  submit-IsSound now func args kwargs h h' o idle e =
      let (h₁, flushed, same) =
        >>=-eq-some (flush_ready_tasks p c (enter_task p c func args kwargs h).1) _ e in
      let entered : (enter_task p c func args kwargs h).1 ≡ h₁ =
        some-injective _ _
          (sym (flush_idle (enter_task p c func args kwargs h).1 idle) ∙ flushed) in
      let final : Head.on_metrics p c _ h₁ ≡ h' =
        ap (λ (x : ℕ × Head p c). x.1) (some-injective _ _ same) in
      subst (Keeps h) (ap (Head.on_metrics p c _) entered ∙ final)
        (idle, λ n ok. enter-Sound p func args kwargs (view h n) ok)

  -- A report, if it says the truth.
  pub result-IsSound :
      (now after : c.Time) (report : Report p) (h h' : Head p c)
      → h.local_task_queue ≡ none
      → handle_task_result p c now after report h ≡ some h'
      → (h'.local_task_queue ≡ none)
        × ((n : WorkerNode p c)
            → ReportOk p h.ownership report
            → Sound p (view h n)
            → Sound p (view h' n))
  unfolding handle_task_result accept Head.reject stored_value Calls.step
  result-IsSound now after report h h' idle e = elim (Outcome-cases report.result) [
    | inl (b, f) ↦
        let accepted : Head p c = accept p c report.task_id report.object_id (p.loads_value b) h in
        let done : handle_task_result p c now after report h ≡ (
            flush_ready_tasks p c accepted >>= λ x.
            some (Head.completed p c now after report.task_id x)) =
          rw (f, handle_task_result) refl in
        let (h₁, flushed, same) = >>=-eq-some (flush_ready_tasks p c accepted) _ (sym done ∙ e) in
        let entered : accepted ≡ h₁ =
          some-injective _ _ (sym (flush_idle accepted idle) ∙ flushed) in
        subst
          (λ (x : Head p c).
            (x.local_task_queue ≡ none)
            × ((n : WorkerNode p c)
                → ReportOk p h.ownership report
                → Sound p (view h n)
                → Sound p (view x n)))
          (ap (Head.completed p c now after report.task_id) entered ∙ some-injective _ _ same)
          (
            idle,
            λ n true_report ok.
                stored-Sound p (view h n) (Calls.finishes report.task_id) report.object_id
                  (p.loads_value b) (Scheduler.on_object_ready report.object_id h.scheduler) ok
                  (subst
                    (λ r. Denotes p h.ownership report.object_id (stored_value p report.task_id r))
                    f true_report)
                  (on_object_ready-AllSpecs _ report.object_id h.scheduler ok.recorded),
          )
    | inr (m, f) ↦
        let rejected : Head p c = Head.reject p c report.task_id report.object_id m h in
        let done : handle_task_result p c now after report h
            ≡ some (Head.on_metrics p c (Dashboard.on_task_failed c report.task_id) rejected) =
          rw (f, handle_task_result) refl in
        subst
          (λ (x : Head p c).
            (x.local_task_queue ≡ none)
            × ((n : WorkerNode p c)
                → ReportOk p h.ownership report
                → Sound p (view h n)
                → Sound p (view x n)))
          (some-injective _ _ (sym done ∙ e))
          (
            idle,
            λ n true_report ok.
                stored-Sound p (view h n) (Calls.fails report.task_id m) report.object_id
                  (task_error report.task_id m) h.scheduler ok
                  (subst
                    (λ r. Denotes p h.ownership report.object_id (stored_value p report.task_id r))
                    f true_report)
                  ok.recorded,
          )
  ]
