-- ===== src/Driver/Safety.antt =====
-- `submit_task` and `_collect_results` of python/nano_ray/driver.py on a scheduler in step with the
-- object store: whether they have to wait.
use nano_ray.Prelude.{
  ℕ, ◌+◌, ◌≡◌, refl, sym, ◌∙◌, subst, ap, [], some, true, false, arith, ◌==◌, elem, discard,
  elem-discard, inl, inr, Bool-cases,
}
use nano_ray.Prelude.Maybe.{◌>>=◌}
use Prim.Native.String.{String}
use nano_ray.Values.{Value, task_error, Items, Fields, Func, TaskSpec}
use nano_ray.ObjectStore
use nano_ray.ObjectStore.{ObjectStore}
use nano_ray.ObjectStore.Laws.{content-put, contains-put}
use nano_ray.Scheduler.{Scheduler, on_object_ready}
use nano_ray.Scheduler
use nano_ray.Scheduler.Index.{step-IsIndexed, on_object_ready_before}
use nano_ray.Scheduler.Run.{readies, step}
use nano_ray.Scheduler.Conserve.{step-IsUnique}
use nano_ray.Worker.{returned, raised, Platform, Report, stored_value, Outcome-cases}
use nano_ray.Driver.{Runtime, flush_ready_tasks, enter_task, submit_task, accept, reject, collect}
use nano_ray.Driver.Flush.{flushed, flush_ready_tasks_lem}
use nano_ray.Driver.Covered.{Covered-mono, on_object_ready-Covered}
use nano_ray.Driver.Scheduling.{succeeded, Scheduled, enter-Scheduled}

succeeded-put :
    (o : ℕ) (v : Value) (store : ObjectStore) (d : ℕ)
    → d == o ≡ false
    → succeeded (ObjectStore.put o v store) d ≡ succeeded store d
unfolding succeeded
succeeded-put o v store d other = rw (content-put o v store d, other)

-- A new object is stored and announced.
announce-Scheduled :
    (store : ObjectStore) (o : ℕ) (v : Value) (s : Scheduler)
    → Scheduled store s
    → Scheduled (ObjectStore.put o v store) (on_object_ready o s)
unfolding step
announce-Scheduled store o v s inv = record {
  indexed = step-IsIndexed s (readies o) inv.indexed;
  unique = step-IsUnique s (readies o) inv.unique;
  covered =
      on_object_ready-Covered (ObjectStore.put o v store) o s
        (ground (arith, contains-put o v store o))
        (Covered-mono store (ObjectStore.put o v store) s
          (λ d h. ground (arith, contains-put o v store d)) inv.covered);
  awaits = λ t q' e d h.
      let (q, found, same) = on_object_ready_before o t s q' inv.indexed e in
      let left : elem d (discard o q.unresolved) ≡ true =
        subst (λ x. elem d x ≡ true) (ap (λ (x : Scheduler.Pending). x.unresolved) same) h in
      let other : d == o ≡ false = ground (arith, elem-discard d o q.unresolved) in
      succeeded-put o v store d other
      ∙ inv.awaits t q found d (ground (arith, elem-discard d o q.unresolved));
}

-- A failure is stored, and not announced.
fail-Scheduled :
    (store : ObjectStore) (o t : ℕ) (e : String) (s : Scheduler)
    → Scheduled store s
    → Scheduled (ObjectStore.put o (task_error t e) store) s
unfolding succeeded
fail-Scheduled store o t e s inv = record {
  indexed = inv.indexed;
  unique = inv.unique;
  covered =
      Covered-mono store (ObjectStore.put o (task_error t e) store) s
        (λ d h. ground (arith, contains-put o (task_error t e) store d)) inv.covered;
  awaits = λ u q found d h. elim (Bool-cases (d == o)) [
    | inl same ↦ rw (content-put o (task_error t e) store d, same)
    | inr other ↦ succeeded-put o (task_error t e) store d other ∙ inv.awaits u q found d h
  ];
}

emptied-Scheduled :
    (store : ObjectStore) (s : Scheduler)
    → Scheduled store s
    → Scheduled store (record s { ready_queue = [] })
emptied-Scheduled store s inv = record {
  indexed = inv.indexed;
  unique = inv.unique;
  covered = record { pending_covered = inv.covered.pending_covered; ready_covered = tt };
  awaits = inv.awaits;
}

module _ (p : Platform) where
  abbrev pub IsScheduled : Runtime p → Type 0
  IsScheduled r = Scheduled r.object_store r.scheduler

  -- `r'` is a runtime with nothing left to send.
  pub record Settled (r : Runtime p) : Type 0 where
    pub scheduled : IsScheduled r
    pub sent_all : r.scheduler.ready_queue ≡ []

  flush-Settled :
      (r : Runtime p)
      → IsScheduled r
      → (r' : Runtime p) × (flush_ready_tasks p r ≡ some r')
        × Settled r'
        × (r'.object_store ≡ r.object_store)
  flush-Settled r inv =
      let (sent, ok, e) = flush_ready_tasks_lem p r inv.covered.ready_covered in
      (
        flushed p sent r,
        e,
        record { scheduled = emptied-Scheduled r.object_store r.scheduler inv; sent_all = refl },
        refl,
      )

  abbrev pub task_spec : Func → Items → Fields → Runtime p → TaskSpec
  task_spec func args kwargs r = record {
    task_id = r.next_id;
    object_id = r.next_id + 1;
    func = func;
    args = args;
    kwargs = kwargs;
  }

  -- On a scheduler in step with the store, a submission never waits: it returns the next object id
  -- and a runtime with nothing left to send, whose store is the same.
  pub submit_task-Settled :
      (func : Func) (args : Items) (kwargs : Fields) (r : Runtime p)
      → IsScheduled r
      → (r' : Runtime p) × (submit_task p func args kwargs r ≡ some (r.next_id + 1, r'))
        × Settled r'
        × (r'.object_store ≡ r.object_store)
  unfolding submit_task enter_task
  submit_task-Settled func args kwargs r inv =
      let entered : Runtime p = (enter_task p func args kwargs r).1 in
      let (r', e, ok, same) =
        flush-Settled entered
          (enter-Scheduled r.object_store (task_spec func args kwargs r) r.scheduler inv) in
      (r', ap (λ m. m >>= λ x. some (r.next_id + 1, x)) e, ok, same)

  pub collect_returned :
      (report : Report p) (b : p.Bytes) (r : Runtime p)
      → report.result ≡ returned b
      → (collect p report r
          ≡ flush_ready_tasks p (accept p report.task_id report.object_id (p.loads_value b) r))
        × (stored_value p report.task_id report.result ≡ p.loads_value b)
  unfolding collect stored_value
  collect_returned report b r e = (rw (collect, e), rw e)

  pub collect_raised :
      (report : Report p) (m : String) (r : Runtime p)
      → report.result ≡ raised m
      → (collect p report r ≡ some (reject p report.task_id report.object_id m r))
        × (stored_value p report.task_id report.result ≡ task_error report.task_id m)
  unfolding collect stored_value
  collect_raised report m r e = (rw (collect, e), rw e)

  -- On a settled runtime the collector never waits for an object: it takes every report in, stores
  -- its value under its object, and leaves a settled runtime.
  pub collect-Settled :
      (report : Report p) (r : Runtime p)
      → Settled r
      → (r' : Runtime p) × (collect p report r ≡ some r')
        × Settled r'
        × (r'.object_store
            ≡ ObjectStore.put report.object_id
                (stored_value p report.task_id report.result)
                r.object_store)
  unfolding accept reject
  collect-Settled report r inv = elim (Outcome-cases report.result) [
    | inl (b, e) ↦
        let (to_flush, stored) = collect_returned report b r e in
        let (r', f, ok, same) =
          flush-Settled (accept p report.task_id report.object_id (p.loads_value b) r) (
            announce-Scheduled r.object_store report.object_id (p.loads_value b) r.scheduler
              inv.scheduled) in
        (
          r',
          to_flush ∙ f,
          ok,
          same ∙ ap (λ v. ObjectStore.put report.object_id v r.object_store) (sym stored),
        )
    | inr (m, e) ↦
        let (done, stored) = collect_raised report m r e in
        (
          reject p report.task_id report.object_id m r,
          done,
          record {
            scheduled =
                fail-Scheduled r.object_store report.object_id report.task_id m r.scheduler
                  inv.scheduled;
            sent_all = inv.sent_all;
          },
          ap (λ v. ObjectStore.put report.object_id v r.object_store) (sym stored),
        )
  ]
