-- ===== src/Driver/Drain.antt =====
-- The turns of one worker and the collector of python/nano_ray/driver.py (see Driver.Turns) until
-- nothing is left to do.
use nano_ray.Prelude.{
  ℕ, zero, suc, ◌+◌, ◌*◌, ◌≤◌, ◌≡◌, refl, sym, ◌∙◌, ap, subst, List, [], ◌∷◌, ◌++◌, Option, none,
  some, arith, length, length-append, true, ◌⊎◌, inl, inr,
}
use mathlib.Core.Option.{some-injective}
use nano_ray.Prelude.Bags.{length-Perm, length-map}
use nano_ray.Prelude.Dict.{values}
use nano_ray.Values.{Value, TaskSpec}
use nano_ray.ObjectStore
use nano_ray.ObjectStore.{ObjectStore}
use nano_ray.Scheduler.{Scheduler, Pending, on_object_ready}
use nano_ray.Scheduler.Conserve.{held, waiting_specs, on_object_ready-perm}
use nano_ray.Worker.{Platform, Message, Report, work, Outcome-cases}
use nano_ray.Driver.{Runtime, flush_ready_tasks, collect, accept, reject}
use nano_ray.Driver.Flush.{AllSent, none_sent, one_sent, flush_ready_tasks_sent}
use nano_ray.Driver.Safety.{Settled, collect_returned, collect_raised, collect-Settled}
use nano_ray.Driver.System.{Steps}
use nano_ray.Driver.Works.{
  IsStarted, Works, idle, worker_ran, collector_took, Works-Steps, Works-trans, collect-IsStarted,
  Steps-IsStarted, started, started-IsStarted, started-Ready, started-Tracked,
}
use nano_ray.Driver.Recoverable.{Ready, Open, Steps-IsLater}
use nano_ray.Driver.Tracked.{Steps-Tracked}
use nano_ray.Driver.Quiet.{Quiet, Failing, Quiet-stored}
use nano_ray.Driver.Loss.{IsTraced, IsTraced-later}

module _ (p : Platform) where
  AllSent-length :
      {store : ObjectStore} {specs : List TaskSpec} {sent : List (Option (Message p))}
      → AllSent p store specs sent
      → length sent ≡ length specs
  AllSent-length none_sent = refl
  AllSent-length (one_sent e more) = ap suc (AllSent-length more)

  -- The turns that are left at most: a pending task is sent, run and taken in.
  abbrev pub turns_left : Runtime p → ℕ
  turns_left r =
      3 * length r.scheduler.pending_tasks + (2 * length r.task_queue + length r.result_queue)

  length-held : (s : Scheduler) → length (held s) ≡ length s.ready_queue + length s.pending_tasks
  length-held s =
      length-append s.ready_queue (waiting_specs s.pending_tasks)
      ∙ ap (λ n. length s.ready_queue + n)
          (length-map (λ (q : Pending). q.spec) (values s.pending_tasks)
            ∙ length-map (λ (e : ℕ × Pending). e.1) s.pending_tasks)

  accept-turns :
      (t o : ℕ) (v : Value) (r r' : Runtime p)
      → Settled p r
      → flush_ready_tasks p (accept p t o v r) ≡ some r'
      → turns_left r' ≤ turns_left r
  unfolding accept
  accept-turns t o v r r' h e =
      let (sent, ok, same) = flush_ready_tasks_sent p (accept p t o v r) r' e in
      let s' = on_object_ready o r.scheduler in
      let bag : length s'.ready_queue + length s'.pending_tasks ≡ length r.scheduler.pending_tasks =
        omega (
          arith,
          length-held s',
          length-Perm (on_object_ready-perm o r.scheduler h.scheduled.unique),
          length-held r.scheduler,
          ap length h.sent_all,
        ) in
      subst (λ x. turns_left x ≤ turns_left r) (sym same)
        (omega (arith, bag, AllSent-length ok, length-append r.task_queue sent))

  collect-turns :
      (report : Report p) (r r' : Runtime p)
      → Settled p r
      → collect p report r ≡ some r'
      → turns_left r' ≤ turns_left r
  unfolding reject
  collect-turns report r r' h e = elim (Outcome-cases report.result) [
    | inl (b, f) ↦
        accept-turns report.task_id report.object_id (p.loads_value b) r r' h
          (sym (collect_returned p report b r f).0 ∙ e)
    | inr (m, f) ↦
        subst (λ x. turns_left x ≤ turns_left r)
          (some-injective _ _ (sym (collect_raised p report m r f).0 ∙ e)) (omega arith)
  ]

  -- A runtime with nothing in its queues, after work from `r` on.
  abbrev Drained : Runtime p → Type 0
  Drained r = (r' : Runtime p) × Works p r r' × Quiet p r'

  drained :
      (n : ℕ) (results : List (Report p)) (tasks : List (Option (Message p))) (r : Runtime p)
      → Ready p r
      → IsStarted p r
      → r.result_queue ≡ results
      → r.task_queue ≡ tasks
      → turns_left r ≤ n
      → Drained r
  drained n [] [] r ready on q t enough = (r, idle, record { no_tasks = t; no_reports = q })
  drained n [] (none ∷ tasks) r ready on q t enough =
      let queue = subst (Open p) t ready.queue_open in absurd (ground (arith, queue.0))
  drained zero [] (some m ∷ tasks) r ready on q t enough =
      absurd (omega (arith, enough, ap length t))
  drained zero (x ∷ rest) tasks r ready on q t enough = absurd (omega (arith, enough, ap length q))
  drained (suc n) [] (some m ∷ tasks) r ready on q t enough =
      let r₁ : Runtime p = record r {
        task_queue = tasks;
        result_queue = r.result_queue ++ work p m ∷ [];
      } in
      let run : Works p r r₁ = worker_ran [] tasks m idle on.has_worker t refl in
      let (r', more, quiet) =
        drained n (r.result_queue ++ work p m ∷ []) tasks r₁
          (Steps-IsLater p ready (Works-Steps p run)).ready
          (record { running = on.running; has_worker = on.has_worker }) refl refl
          (omega (
            arith,
            enough,
            ap length t,
            ap length q,
            length-append r.result_queue (work p m ∷ []),
          )) in
      (r', Works-trans p run more, quiet)
  drained (suc n) (x ∷ rest) tasks r ready on q t enough =
      let r₀ : Runtime p = record r { result_queue = rest } in
      let settled : Settled p r₀ = record {
        scheduled = ready.settled.scheduled;
        sent_all = ready.settled.sent_all;
      } in
      let (r₁, e, ok, store) = collect-Settled p x r₀ settled in
      let run : Works p r r₁ = collector_took x rest idle on.running q e in
      let on₁ =
        collect-IsStarted p x r₀ r₁ e
          (record { running = on.running; has_worker = on.has_worker }) in
      let (r', more, quiet) =
        drained n r₁.result_queue r₁.task_queue r₁ (Steps-IsLater p ready (Works-Steps p run)).ready
          on₁ refl refl (omega (arith, enough, ap length q, collect-turns x r₀ r₁ settled e)) in
      (r', Works-trans p run more, quiet)

  -- From every runtime that a run without evictions reaches from a started one with a worker at least,
  -- the workers and the collector by themselves, with no submission and no task sent again, come in
  -- finitely many steps to one with nothing in its queues. There an object that its lineage gives is
  -- stored, or a task that it needs has failed.
  pub run-Quiet :
      (n k o : ℕ) (r : Runtime p)
      → Steps p (started p n) r
      → IsTraced p r k o
      → (r' : Runtime p) × Works p r r'
        × Quiet p r'
        × ((ObjectStore.contains o r'.object_store ≡ true) ⊎ Failing p r' o)
  run-Quiet n k o r run traced =
      let ready = (Steps-IsLater p (started-Ready p n) run).ready in
      let on = Steps-IsStarted p run (started-IsStarted p n) in
      let (r', more, quiet) =
        drained (turns_left r) r.result_queue r.task_queue r ready on refl refl (omega arith) in
      let later = Steps-IsLater p ready (Works-Steps p more) in
      let before = Steps-Tracked p (started p n) r (started-Ready p n) (started-Tracked p n) run in
      let tracked = Steps-Tracked p r r' ready before (Works-Steps p more) in
      (
        r',
        more,
        quiet,
        Quiet-stored p r' later.ready tracked quiet k o
            (IsTraced-later p r (record r' { object_store = ObjectStore.init }) later.grows traced),
      )
