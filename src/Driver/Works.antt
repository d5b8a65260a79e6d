-- ===== src/Driver/Works.antt =====
-- What the worker processes and the collector thread of python/nano_ray/driver.py do by themselves,
-- in a runtime that `start` has started, and nothing else: no submission, and no task sent again.
use nano_ray.Prelude.{
  ℕ, suc, ◌<◌, ◌≡◌, refl, sym, ◌∙◌, ap, subst, List, ◌∷◌, ◌++◌, Option, some, true, arith, inl, inr,
  [],
}
use nano_ray.Prelude.Maybe.{>>=-eq-some}
use mathlib.Core.Option.{some-injective}
use nano_ray.Worker.{Platform, Message, Report, work, Outcome-cases}
use nano_ray.Driver.{
  Runtime, init, start, enter_task, flush_ready_tasks, submit_task, collect, accept, reject,
}
use nano_ray.Driver.Flush.{flush_ready_tasks_sent}
use nano_ray.Driver.Safety.{collect_returned, collect_raised}
use nano_ray.Driver.System.{Step, submits, finishes, collects, resends, Steps, here, next}
use nano_ray.Driver.Run.{send_again_lem}
use nano_ray.Driver.Recoverable.{Ready, run-Ready}
use nano_ray.Driver.Tracked.{Tracked, run-Tracked}

module _ (p : Platform) where
  -- The collector runs, and so does a worker process.
  pub record IsStarted (r : Runtime p) : Type 0 where
    pub running : r.running ≡ true
    pub has_worker : 0 < r.workers

  -- A worker takes any task off the queue, as workers run side by side; the collector takes the next
  -- report in.
  pub data Works (r : Runtime p) : Runtime p → Type 0 where
    idle : Works r r
    worker_ran :
        {s t : Runtime p} (before after : List (Option (Message p))) (m : Message p)
        → Works r s
        → 0 < s.workers
        → s.task_queue ≡ before ++ some m ∷ after
        → t ≡ record s {
          task_queue = before ++ after;
          result_queue = s.result_queue ++ work p m ∷ [];
        }
        → Works r t
    collector_took :
        {s t : Runtime p} (report : Report p) (rest : List (Report p))
        → Works r s
        → s.running ≡ true
        → s.result_queue ≡ report ∷ rest
        → collect p report (record s { result_queue = rest }) ≡ some t
        → Works r t

  pub Works-Steps : {r s : Runtime p} → Works r s → Steps p r s
  Works-Steps idle = here
  Works-Steps (worker_ran before after m run here_works q same) =
      next (Works-Steps run) (finishes before after m q same)
  Works-Steps (collector_took report rest run on q e) =
      next (Works-Steps run) (collects report rest q e)

  pub Works-trans : {r s t : Runtime p} → Works r s → Works s t → Works r t
  Works-trans run idle = run
  Works-trans run (worker_ran before after m more w q same) =
      worker_ran before after m (Works-trans run more) w q same
  Works-trans run (collector_took report rest more on q e) =
      collector_took report rest (Works-trans run more) on q e

  IsStarted-same :
      {r s : Runtime p} → r.running ≡ s.running → r.workers ≡ s.workers → IsStarted r → IsStarted s
  IsStarted-same on same h = record {
    running = sym on ∙ h.running;
    has_worker = subst (λ n. 0 < n) same h.has_worker;
  }

  flush-IsStarted : (r s : Runtime p) → flush_ready_tasks p r ≡ some s → IsStarted r → IsStarted s
  flush-IsStarted r s e h =
      let (sent, ok, same) = flush_ready_tasks_sent p r s e in
      subst IsStarted (sym same) (record { running = h.running; has_worker = h.has_worker })

  pub collect-IsStarted :
      (report : Report p) (r s : Runtime p)
      → collect p report r ≡ some s
      → IsStarted r
      → IsStarted s
  unfolding accept reject
  collect-IsStarted report r s e h = elim (Outcome-cases report.result) [
    | inl (b, f) ↦
        flush-IsStarted (accept p report.task_id report.object_id (p.loads_value b) r) s
          (sym (collect_returned p report b r f).0 ∙ e)
          (record { running = h.running; has_worker = h.has_worker })
    | inr (m, f) ↦
        subst IsStarted (some-injective _ _ (sym (collect_raised p report m r f).0 ∙ e))
          (record { running = h.running; has_worker = h.has_worker })
  ]

  Step-IsStarted : (r s : Runtime p) → Step p r s → IsStarted r → IsStarted s
  unfolding submit_task enter_task
  Step-IsStarted r s (submits func args kwargs o e) h =
      let (t, flush, same) =
        >>=-eq-some (flush_ready_tasks p (enter_task p func args kwargs r).1) _ e in
      let kept : IsStarted t =
        flush-IsStarted (enter_task p func args kwargs r).1 t flush
          (record { running = h.running; has_worker = h.has_worker }) in
      subst IsStarted (ap (λ (x : ℕ × Runtime p). x.1) (some-injective _ _ same)) kept
  Step-IsStarted r s (finishes before after m q same) h =
      subst IsStarted (sym same) (record { running = h.running; has_worker = h.has_worker })
  Step-IsStarted r s (collects report rest q e) h =
      collect-IsStarted report (record r { result_queue = rest }) s e
        (record { running = h.running; has_worker = h.has_worker })
  Step-IsStarted r s (resends t o bytes deps prod lin e) h =
      subst IsStarted (sym (send_again_lem p t o bytes r s e).sent)
        (record { running = h.running; has_worker = h.has_worker })

  pub Steps-IsStarted : {r s : Runtime p} → Steps p r s → IsStarted r → IsStarted s
  Steps-IsStarted here h = h
  Steps-IsStarted {s = t} (next {r' = s} run step) h =
      Step-IsStarted s t step (Steps-IsStarted run h)

  -- A runtime that `init` of python/nano_ray/api.py has made and started.
  abbrev pub started : ℕ → Runtime p
  started n = start p (init p (suc n))

  pub started-IsStarted : (n : ℕ) → IsStarted (started n)
  unfolding start init
  started-IsStarted n = record { running = refl; has_worker = ground arith }

  pub started-Ready : (n : ℕ) → Ready p (started n)
  unfolding start init
  started-Ready n =
      let h = run-Ready p (suc n) (init p (suc n)) here in
      record {
        sound = record {
          stored = h.sound.stored;
          queued = h.sound.queued;
          reported = h.sound.reported;
          recorded = h.sound.recorded;
          ids_used = h.sound.ids_used;
          tasks_used = h.sound.tasks_used;
        };
        settled = record { scheduled = h.settled.scheduled; sent_all = h.settled.sent_all };
        queue_open = h.queue_open;
      }

  pub started-Tracked : (n : ℕ) → Tracked p (started n)
  unfolding start init nano_ray.Driver.Flying.flying
  started-Tracked n =
      let h = run-Tracked p (suc n) (init p (suc n)) here in
      record { placed = h.placed; needed = h.needed }
