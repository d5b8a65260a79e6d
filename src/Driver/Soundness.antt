-- ===== src/Driver/Soundness.antt =====
-- What it is for a runtime of python/nano_ray/driver.py to be sound: an invariant of the queues,
-- the scheduler and the store.
use nano_ray.Prelude.{
  ℕ, ◌<◌, ◌≡◌, sym, ◌∙◌, List, [], ◌∷◌, Option, none, some, true, arith, ◌==◌, elem, inl, inr,
  Bool-cases, Option-cases, All, get_or_else, ==_iff,
}
use nano_ray.Values.{Value, py_none, Items, Fields, Func, TaskSpec}
use nano_ray.ObjectStore
use nano_ray.ObjectStore.{ObjectStore}
use nano_ray.ObjectStore.Laws.{content, get_now-content}
use nano_ray.Ownership.{OwnershipTable, get_producer_task, get_task_lineage}
use nano_ray.Scheduler.Specs.{AllSpecs}
use nano_ray.Dag.{extract_dependencies, resolve_args}
use nano_ray.Dag.Resolve.{Agree, resolve_args_congr, all_return, is_some-resolve_args}
use nano_ray.Worker.{returned, Platform, Message, Report, execute, stored_value}
use nano_ray.Worker.Loop.{stored_value-execute}
use nano_ray.Driver.{Runtime}
use nano_ray.Driver.Meaning.{Denotes, denotes}

module _ (p : Platform) where
  abbrev Table : Type 0
  Table = OwnershipTable p.Bytes

  -- A waiting task is recorded in the table.
  pub record Recorded (table : Table) (spec : TaskSpec) : Type 0 where
    pub produces : get_producer_task spec.object_id table ≡ some spec.task_id
    pub deps : List ℕ
    pub lineage :
        get_task_lineage spec.task_id table
        ≡ some (p.dumps_task spec.func spec.args spec.kwargs, deps)

  abbrev pub MessageOk : Table → Option (Message p) → Type 0
  MessageOk table none = Unit
  MessageOk table (some m) =
      Denotes p table m.object_id (stored_value p m.task_id (execute p m.payload))

  abbrev pub ReportOk : Table → Report p → Type 0
  ReportOk table report =
      Denotes p table report.object_id (stored_value p report.task_id report.result)

  abbrev pub StoreOk : Table → ObjectStore → Type 0
  StoreOk table store = (o : ℕ) (v : Value) → content store o ≡ some v → Denotes p table o v

  pub record Sound (r : Runtime p) : Type 0 where
    pub stored : StoreOk r.ownership r.object_store
    pub queued : All (MessageOk r.ownership) r.task_queue
    pub reported : All (ReportOk r.ownership) r.result_queue
    pub recorded : AllSpecs (Recorded r.ownership) r.scheduler
    pub ids_used : (o t : ℕ) → get_producer_task o r.ownership ≡ some t → o < r.next_id
    pub tasks_used :
        (t : ℕ) (l : p.Bytes × List ℕ) → get_task_lineage t r.ownership ≡ some l → t < r.next_id

  -- The value of a stored object; `None` elsewhere.
  abbrev value_in : ObjectStore → ℕ → Value
  value_in store d = get_or_else (content store d) py_none

  Agree-in :
      (store : ObjectStore) (os : List ℕ)
      → all_return (λ o. ObjectStore.get_now o store) os ≡ true
      → Agree (λ d. some (value_in store d)) (λ d. ObjectStore.get_now d store) os
  unfolding all_return
  Agree-in store [] h = tt
  Agree-in store (o ∷ os) h =
      (ground (arith, get_now-content o store), Agree-in store os (ground arith))

  Denotes-in :
      (table : Table) (store : ObjectStore) (os : List ℕ)
      → StoreOk table store
      → all_return (λ o. ObjectStore.get_now o store) os ≡ true
      → (d : ℕ) → elem d os ≡ true
      → Denotes p table d (value_in store d)
  unfolding all_return elem
  Denotes-in table store [] ok h d e = absurd (ground arith)
  Denotes-in table store (o ∷ os) ok h d e = elim (Bool-cases (d == o)) [
    | inl same ↦ elim (Option-cases (ObjectStore.get_now o store)) [
      | inl e ↦ absurd (ground arith)
      | inr (v, e) ↦
          let here : content store o ≡ some v = sym (get_now-content o store) ∙ e in
          rw ((==_iff d o).0 same, here) (ok o v here)
    ]
    | inr other ↦ Denotes-in table store os ok (ground arith) d (ground arith)
  ]

  -- A recorded task whose arguments are resolved from a sound store: what a worker makes of it is
  -- what its object means.
  pub resolved-Denotes :
      (table : Table) (store : ObjectStore) (o t : ℕ) (bytes : p.Bytes) (deps : List ℕ)
      (func : Func) (args a : Items) (kwargs k : Fields)
      → StoreOk table store
      → get_producer_task o table ≡ some t
      → get_task_lineage t table ≡ some (bytes, deps)
      → p.loads_task bytes ≡ returned (func, args, kwargs)
      → resolve_args (λ d. ObjectStore.get_now d store) args kwargs ≡ some (a, k)
      → Denotes p table o (stored_value p t (execute p (p.dumps_task func a k)))
  resolved-Denotes table store o t bytes deps func args a kwargs k ok prod lin loads res =
      denotes (value_in store) prod lin loads (Denotes-in table store os ok all)
        (resolve_args_congr _ _ args kwargs (Agree-in store os all) ∙ res)
        (stored_value-execute p t func a k)
    where
      os : List ℕ
      os = extract_dependencies args kwargs

      all : all_return (λ o. ObjectStore.get_now o store) os ≡ true
      all = sym (is_some-resolve_args (λ o. ObjectStore.get_now o store) args kwargs) ∙ rw res
