-- ===== src/Driver/Placed.antt =====
-- Where the tasks of python/nano_ray/driver.py are whose objects are not there yet.
use nano_ray.Prelude.{
  ℕ, ◌≡◌, sym, ap, true, false, arith, elem, ==_iff, ◌⊎◌, inl, inr, Bool-cases, some, ◌++◌,
}
use nano_ray.Prelude.Bags.{any}
use nano_ray.Prelude.Dict.{lookup}
use nano_ray.ObjectStore
use nano_ray.Ownership.{get_producer_task}
use nano_ray.Scheduler.{Pending}
use nano_ray.Scheduler.Conserve.{waiting_specs}
use nano_ray.Worker.{Platform}
use nano_ray.Driver.{Runtime, init}
use nano_ray.Driver.Flush.{spec_deps}
use nano_ray.Driver.Scheduling.{succeeded}
use nano_ray.Driver.System.{Steps}
use nano_ray.Driver.Recoverable.{run-Ready}
use nano_ray.Driver.Flying.{gives, sends, reports, flying}
use nano_ray.Driver.Tracked.{run-Tracked}
use nano_ray.Driver.Quiet.{any-waiting_specs, some_elem}

module _ (p : Platform) where
  -- The scheduler holds the object's task back, for an argument that is not stored or is a failure.
  pub record IsHeldBack (o : ℕ) (r : Runtime p) : Type 0 where
    pub task_id : ℕ
    pub entry : Pending
    pub listed : lookup task_id r.scheduler.pending_tasks ≡ some entry
    pub its : entry.spec.object_id ≡ o
    pub dep : ℕ
    pub needed : elem dep (spec_deps entry.spec) ≡ true
    pub absent : succeeded r.object_store dep ≡ false

  -- The object's task is on its way: to a worker, or back as a report.
  abbrev pub IsUnderWay : ℕ → Runtime p → Type 0
  IsUnderWay o r = (any r.task_queue (sends p o) ≡ true) ⊎ (any r.result_queue (reports p o) ≡ true)

  -- In every run without evictions from a fresh runtime, an object that a task has to give is stored,
  -- or its message is in the task queue, or its report has come, or the scheduler holds its task back
  -- for an argument that is not stored or is a failure.
  pub run-Placed :
      (n o t : ℕ) (r : Runtime p)
      → Steps p (init p n) r
      → get_producer_task o r.ownership ≡ some t
      → (ObjectStore.contains o r.object_store ≡ true) ⊎ (IsUnderWay o r ⊎ IsHeldBack o r)
  unfolding flying any
  run-Placed n o t r run prod =
      let h = run-Tracked p n r run in
      let settled = (run-Ready p n r run).settled in
      elim (Bool-cases (ObjectStore.contains o r.object_store)) [
        | inl there ↦ inl there
        | inr missing ↦ elim (Bool-cases (any r.task_queue (sends p o))) [
          | inl sent ↦ inr (inl (inl sent))
          | inr unsent ↦ elim (Bool-cases (any r.result_queue (reports p o))) [
            | inl came ↦ inr (inl (inr came))
            | inr unreported ↦
                let inside : any (waiting_specs r.scheduler.pending_tasks) (gives o) ≡ true =
                  ground (
                    arith,
                    h.placed o t prod,
                    ap (λ x. any (x ++ waiting_specs r.scheduler.pending_tasks) (gives o))
                        settled.sent_all,
                  ) in
                let (u, q, found, its) =
                  any-waiting_specs r.scheduler.pending_tasks (gives o) settled.scheduled.unique
                    inside in
                let (d, waits) =
                  some_elem q.unresolved (settled.scheduled.indexed u q found).waits in
                inr (
                  inr (record {
                    task_id = u;
                    entry = q;
                    listed = found;
                    its = sym ((==_iff o q.spec.object_id).0 its);
                    dep = d;
                    needed = h.needed u q found d waits;
                    absent = settled.scheduled.awaits u q found d waits;
                  }))
          ]
        ]
      ]
