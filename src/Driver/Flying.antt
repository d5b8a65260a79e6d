-- ===== src/Driver/Flying.antt =====
-- Where the objects are that the tasks of python/nano_ray/driver.py have yet to give: with a task
-- that the scheduler holds, with a message in the task queue, or with a report.
use nano_ray.Prelude.{
  ℕ, ◌+◌, ◌≡◌, refl, List, ◌∷◌, ◌||◌, Option, none, some, Bool, false, arith, ◌==◌, inl, inr,
  Option-cases,
}
use mathlib.Core.List.{Perm}
use mathlib.Core.List.Perm
use nano_ray.Prelude.Bags.{any, any-append, any-Perm}
use nano_ray.Prelude.Dict.{lookup, IsUnique}
use nano_ray.Values.{Items, Fields, Func, TaskSpec}
use nano_ray.ObjectStore.{ObjectStore}
use nano_ray.Scheduler
use nano_ray.Scheduler.{Scheduler, Pending, on_object_ready}
use nano_ray.Scheduler.Index.{IsIndexed}
use nano_ray.Scheduler.Run.{submits, readies, step}
use nano_ray.Scheduler.Conserve.{
  held, waiting_specs, submit-perm, on_object_ready-perm, step-IsUnique,
}
use nano_ray.Worker.{Platform, Message, Report}
use nano_ray.Driver.{Runtime, retrigger, or_none, enter_task}
use nano_ray.Driver.Flush.{AllSent, none_sent, one_sent, flushed, spec_deps}
use nano_ray.Driver.Scheduling.{retrigger_ind}
use nano_ray.Driver.Safety.{task_spec}
use nano_ray.Driver.Soundness.{Sound}

abbrev pub gives : ℕ → TaskSpec → Bool
gives o spec = o == spec.object_id

module _ (p : Platform) where
  abbrev pub sends : ℕ → Option (Message p) → Bool
  sends o none = false
  sends o (some m) = o == m.object_id

  abbrev pub reports : ℕ → Report p → Bool
  reports o report = o == report.object_id

  -- The object is yet to come.
  unfoldable pub flying : ℕ → Runtime p → Bool
  flying o r =
      any (held r.scheduler) (gives o)
      || (any r.task_queue (sends o) || any r.result_queue (reports o))

  AllSent-any :
      {store : ObjectStore} {specs : List TaskSpec} {sent : List (Option (Message p))} (o : ℕ)
      → AllSent p store specs sent
      → any sent (sends o) ≡ any specs (gives o)
  unfolding any
  AllSent-any o none_sent = refl
  AllSent-any o (one_sent e more) = ground (arith, AllSent-any o more)

  -- A flush moves what it sends.
  pub flying-flushed :
      (o : ℕ) (sent : List (Option (Message p))) (r : Runtime p)
      → AllSent p r.object_store r.scheduler.ready_queue sent
      → flying o (flushed p sent r) ≡ flying o r
  unfolding flying
  flying-flushed o sent r ok = ground (
    arith,
    any-append r.scheduler.ready_queue (waiting_specs r.scheduler.pending_tasks) (gives o),
    any-append r.task_queue sent (sends o),
    AllSent-any o ok,
  )

  -- A submission adds its object.
  retrigger-perm :
      (store : ObjectStore) (ds : List ℕ) (s : Scheduler)
      → IsUnique s.pending_tasks
      → Perm (held (retrigger store ds s)) (held s)
  unfolding step
  retrigger-perm store ds s u =
      (retrigger_ind store (λ x. IsUnique x.pending_tasks × Perm (held x) (held s))
        (λ d x there h.
          (step-IsUnique x (readies d) h.0, Perm.trans (on_object_ready-perm d x h.0) h.1))
        ds s (u, Perm.rfl)).1

  -- The ids of the waiting tasks are in use.
  next_is_fresh :
      (r : Runtime p)
      → Sound p r
      → IsIndexed r.scheduler
      → lookup r.next_id r.scheduler.pending_tasks ≡ none
  next_is_fresh r h indexed = elim (Option-cases (lookup r.next_id r.scheduler.pending_tasks)) [
    | inl e ↦ e
    | inr (q, e) ↦
        let spec = h.recorded.of_pending r.next_id q e in
        absurd
          (omega (arith, h.tasks_used q.spec.task_id _ spec.lineage, (indexed r.next_id q e).named))
  ]

  pub flying-enter :
      (o : ℕ) (func : Func) (args : Items) (kwargs : Fields) (r : Runtime p)
      → Sound p r
      → IsIndexed r.scheduler
      → IsUnique r.scheduler.pending_tasks
      → flying o (enter_task p func args kwargs r).1 ≡ ((o == r.next_id + 1) || flying o r)
  unfolding flying enter_task step any
  flying-enter o func args kwargs r h indexed u =
      let spec = task_spec p func args kwargs r in
      let ds = spec_deps spec in
      let s = Scheduler.submit spec (or_none ds) r.scheduler in
      let bag : Perm (held (retrigger r.object_store ds s)) (spec ∷ held r.scheduler) =
        Perm.trans
          (retrigger-perm r.object_store ds s
            (step-IsUnique r.scheduler (submits spec (or_none ds)) u))
          (submit-perm spec (or_none ds) r.scheduler (next_is_fresh r h indexed)) in
      ground (arith, any-Perm (gives o) bag)
