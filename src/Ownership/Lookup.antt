-- ===== src/Ownership/Lookup.antt =====
-- What the table of python/nano_ray/_fallback/ownership.py answers after a registration and after
-- any later calls.
use Prim.Native.String.{String}
use nano_ray.Prelude.{
  ℕ, ◌≡◌, refl, ◌∙◌, List, [], ◌∷◌, Option, some, ◌==◌, if◌then◌else◌, get_or_else, ◌≢◌, ==_iff,
  ==-eq-false,
}
use nano_ray.Prelude.Dict.{get_field-insert, get_field-modify, get_field-modify_if}
use nano_ray.Prelude.Maybe.{map_some}
use nano_ray.Ownership.{
  ready, finished, failed, TaskEntry, ObjectEntry, OwnershipTable, new_task, register_task,
  task_finished, task_failed, get_task_status, get_result_id, get_producer_task, get_task_lineage,
  lineage_of, add_ref, remove_ref,
}
use nano_ray.Ownership.Calls.{Call, finishes, fails, adds, removes, step, run}

module _ {Bytes : Type 0} where
  -- Everything that a registration puts in can be looked up.
  pub register_task_lem :
      (t o owner : ℕ) (desc : String) (args : Bytes) (deps : Option (List ℕ))
      (table : OwnershipTable Bytes)
      → let table' = register_task t o owner desc args deps table in
        (get_task_status t table' ≡ some ready)
        × (get_result_id t table' ≡ some o)
        × (get_producer_task o table' ≡ some t)
        × (get_task_lineage t table' ≡ some (args, get_or_else deps []))
  unfolding register_task get_task_status get_result_id get_producer_task get_task_lineage
  register_task_lem t o owner desc args deps table =
      let task = new_task o owner desc args deps in
      (
        rw (
          get_field-insert (λ (e : TaskEntry Bytes). e.status) t t task table.tasks,
          (==_iff t t).1 refl,
        ),
        rw (
          get_field-insert (λ (e : TaskEntry Bytes). e.result_id) t t task table.tasks,
          (==_iff t t).1 refl,
        ),
        rw (
          get_field-insert (λ (e : ObjectEntry). e.producer_task) o o _ table.objects,
          (==_iff o o).1 refl,
        ),
        rw (get_field-insert lineage_of t t task table.tasks, (==_iff t t).1 refl),
      )

  -- Other ids keep their answers.
  pub register_task_other :
      (t o owner : ℕ) (desc : String) (args : Bytes) (deps : Option (List ℕ))
      (table : OwnershipTable Bytes) (t' o' : ℕ)
      → t' ≢ t
      → o' ≢ o
      → let table' = register_task t o owner desc args deps table in
        (get_task_status t' table' ≡ get_task_status t' table)
        × (get_producer_task o' table' ≡ get_producer_task o' table)
        × (get_task_lineage t' table' ≡ get_task_lineage t' table)
  unfolding register_task get_task_status get_result_id get_producer_task get_task_lineage
  register_task_other t o owner desc args deps table t' o' h h' =
      let task = new_task o owner desc args deps in
      (
        rw (
          get_field-insert (λ (e : TaskEntry Bytes). e.status) t t' task table.tasks,
          ==-eq-false t' t h,
        ),
        rw (
          get_field-insert (λ (e : ObjectEntry). e.producer_task) o o' _ table.objects,
          ==-eq-false o' o h',
        ),
        rw (get_field-insert lineage_of t t' task table.tasks, ==-eq-false t' t h),
      )

  -- No later call changes the lineage of a task, nor which task produced an object.
  pub step_lineage :
      (table : OwnershipTable Bytes) (c : Call) (t o : ℕ)
      → (get_task_lineage t (step table c) ≡ get_task_lineage t table)
        × (get_producer_task o (step table c) ≡ get_producer_task o table)
  unfolding step task_finished task_failed add_ref remove_ref get_producer_task get_task_lineage
  step_lineage table (finishes u) t o = (get_field-modify _ _ u t table.tasks (λ e. refl), refl)
  step_lineage table (fails u m) t o = (get_field-modify _ _ u t table.tasks (λ e. refl), refl)
  step_lineage table (adds p) t o = (refl, get_field-modify _ _ p o table.objects (λ e. refl))
  step_lineage table (removes p) t o = (refl, get_field-modify _ _ p o table.objects (λ e. refl))

  -- Whatever happens to a task and its references, its lineage stays as it was registered.
  pub run_lineage :
      (table : OwnershipTable Bytes) (cs : List Call) (t o : ℕ)
      → (get_task_lineage t (run table cs) ≡ get_task_lineage t table)
        × (get_producer_task o (run table cs) ≡ get_producer_task o table)
  unfolding run
  run_lineage table [] t o = (refl, refl)
  run_lineage table (c ∷ cs) t o =
      let rest = run_lineage (step table c) cs t o in
      let first = step_lineage table c t o in (rest.0 ∙ first.0, rest.1 ∙ first.1)

  -- The last report decides a task's status.
  pub status-report :
      (table : OwnershipTable Bytes) (t u : ℕ) (m : String)
      → (get_task_status u (task_finished t table) ≡ (
          if u == t
          then map_some (λ _. finished) (get_task_status u table)
          else get_task_status u table))
        × (get_task_status u (task_failed t m table) ≡ (
            if u == t
            then map_some (λ _. failed) (get_task_status u table)
            else get_task_status u table))
  unfolding task_finished task_failed get_task_status
  status-report table t u m = (
    get_field-modify_if (λ e. e.status) _ (λ _. finished) t u table.tasks (λ e. refl),
    get_field-modify_if (λ e. e.status) _ (λ _. failed) t u table.tasks (λ e. refl),
  )
