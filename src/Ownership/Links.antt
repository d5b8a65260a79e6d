-- ===== src/Ownership/Links.antt =====
-- How the two tables of python/nano_ray/_fallback/ownership.py point at each other.
use Prim.Native.String.{String}
use nano_ray.Prelude.{
  ℕ, ◌≡◌, refl, sym, ◌∙◌, List, Option, none, some, arith, Option-cases, inl, inr,
}
use nano_ray.Prelude.Dict.{lookup, get_field, get_field-insert, get_field-modify}
use nano_ray.Prelude.Int.{pos}
use nano_ray.Ownership.{
  TaskEntry, ObjectEntry, OwnershipTable, init, new_task, register_task, task_finished, task_failed,
  lineage_of, get_result_id, get_producer_task, get_task_lineage, add_ref, remove_ref,
}
use nano_ray.Ownership.Calls.{Call, finishes, fails, adds, removes, step}

module _ {Bytes : Type 0} where
  -- The task that is named as an object's producer is registered, with that object for its result.
  abbrev pub IsLinked : OwnershipTable Bytes → Type 0
  IsLinked table = (o t : ℕ) → get_producer_task o table ≡ some t → get_result_id t table ≡ some o

  -- A registration under a task id that is not in use keeps the two tables linked.
  pub register_task-IsLinked :
      (t o owner : ℕ) (desc : String) (args : Bytes) (deps : Option (List ℕ))
      (table : OwnershipTable Bytes)
      → get_result_id t table ≡ none
      → IsLinked table
      → IsLinked (register_task t o owner desc args deps table)
  unfolding register_task get_producer_task get_result_id
  register_task-IsLinked t o owner desc args deps table new links p u h = ground (
    arith,
    get_field-insert (λ (e : ObjectEntry). e.producer_task) o p
        (record { owner = owner; ref_count = pos 1; producer_task = t; location = none })
        table.objects,
    get_field-insert (λ (e : TaskEntry Bytes). e.result_id) t u (new_task o owner desc args deps)
        table.tasks,
    links p u,
  )

  pub step-IsLinked :
      (table : OwnershipTable Bytes) (c : Call) → IsLinked table → IsLinked (step table c)
  unfolding step task_finished task_failed add_ref remove_ref get_producer_task get_result_id
  step-IsLinked table (finishes u) links o t h =
      get_field-modify (λ e. e.result_id) _ u t table.tasks (λ e. refl) ∙ links o t h
  step-IsLinked table (fails u m) links o t h =
      get_field-modify (λ e. e.result_id) _ u t table.tasks (λ e. refl) ∙ links o t h
  step-IsLinked table (adds p) links o t h =
      links o t (sym (get_field-modify (λ e. e.producer_task) _ p o table.objects (λ e. refl)) ∙ h)
  step-IsLinked table (removes p) links o t h =
      links o t (sym (get_field-modify (λ e. e.producer_task) _ p o table.objects (λ e. refl)) ∙ h)

  -- An object with a producer has a lineage: its reconstruction cannot fail for want of one.
  pub lineage_of-IsLinked :
      (table : OwnershipTable Bytes) (o t : ℕ)
      → IsLinked table
      → get_producer_task o table ≡ some t
      → (l : Bytes × List ℕ) × (get_task_lineage t table ≡ some l)
  unfolding get_task_lineage get_result_id get_field
  lineage_of-IsLinked table o t links h = elim (Option-cases (lookup t table.tasks)) [
    | inl e ↦ absurd (ground (arith, links o t h))
    | inr (entry, e) ↦ (lineage_of entry, rw e)
  ]

pub init-IsLinked : (Bytes : Type 0) → IsLinked (init {Bytes = Bytes})
unfolding init get_producer_task get_field lookup
init-IsLinked Bytes o t h = absurd (ground arith)
