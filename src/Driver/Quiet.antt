-- ===== src/Driver/Quiet.antt =====
-- A runtime of python/nano_ray/driver.py with nothing in its queues: what has come of the tasks.
use nano_ray.Prelude.{
  ℕ, suc, ◌≡◌, ◌≢◌, refl, sym, ◌∙◌, ap, subst, List, [], ◌∷◌, ◌++◌, ◌||◌, ◌⊎◌, Option, some, Bool,
  true, false, arith, ◌==◌, ==_iff, elem, inl, inr, Bool-cases, Option-cases,
}
use mathlib.Core.Option.{some-injective}
use Prim.Native.String.{String}
use nano_ray.Prelude.Bags.{any}
use nano_ray.Prelude.Dict.{Dict, lookup, values, IsUnique}
use nano_ray.Values.{
  Value, py_none, obj, object_ref, list, tuple, dict, task_error, actor_state, TaskSpec, Func,
  Items, Fields,
}
use nano_ray.ObjectStore
use nano_ray.ObjectStore.{ObjectStore}
use nano_ray.ObjectStore.Laws.{content, contains-content}
use nano_ray.Ownership.{OwnershipTable, get_producer_task, get_task_lineage}
use nano_ray.Dag.{extract_dependencies}
use nano_ray.Scheduler.{Pending}
use nano_ray.Scheduler.Conserve.{waiting_specs}
use nano_ray.Worker.{Platform, Outcome, returned, raised}
use nano_ray.Driver.{Runtime}
use nano_ray.Driver.Flush.{spec_deps}
use nano_ray.Driver.Scheduling.{succeeded, is_success}
use nano_ray.Driver.Recoverable.{Ready, stored, rebuilt}
use nano_ray.Driver.Loss.{IsTraced}
use nano_ray.Driver.Flying.{gives, sends, reports, flying}
use nano_ray.Driver.Tracked.{Tracked}

-- A waiting task that passes a test has an entry.
pub any-waiting_specs :
    (d : Dict Pending) (f : TaskSpec → Bool)
    → IsUnique d
    → any (waiting_specs d) f ≡ true
    → (t : ℕ) × (q : Pending) × (lookup t d ≡ some q) × (f q.spec ≡ true)
unfolding any lookup
any-waiting_specs [] f u h = absurd (ground arith)
any-waiting_specs ((t, q) ∷ d) f u h = elim (Bool-cases (f q.spec)) [
  | inl passes ↦ (t, q, ground (arith, ==_iff t t), passes)
  | inr fails ↦
      let (t', q', found, passes) = any-waiting_specs d f u.1 (ground arith) in
      (
        t',
        q',
        elim (Bool-cases (t' == t)) [
          | inl same ↦ absurd (ground (arith, u.0, found, ==_iff t' t))
          | inr other ↦ ground (arith, found)
        ],
        passes,
      )
]

success-cases :
    (v : Value) → (is_success (some v) ≡ true) ⊎ ((t : ℕ) × (e : String) × (v ≡ task_error t e))
success-cases (task_error t e) = inr (t, e, refl)
success-cases py_none = inl refl
success-cases (obj n) = inl refl
success-cases (object_ref o) = inl refl
success-cases (list items) = inl refl
success-cases (tuple items) = inl refl
success-cases (dict fields) = inl refl
success-cases (actor_state instance_value) = inl refl

-- The object is stored, and is the error of a task.
abbrev pub HasFailed : ObjectStore → ℕ → Type 0
HasFailed store o = (t : ℕ) × (e : String) × (content store o ≡ some (task_error t e))

stored-cases :
    (store : ObjectStore) (o : ℕ)
    → ObjectStore.contains o store ≡ true
    → (succeeded store o ≡ true) ⊎ HasFailed store o
unfolding succeeded
stored-cases store o there = elim (Option-cases (content store o)) [
  | inl e ↦ absurd (ground (arith, contains-content o store))
  | inr (v, e) ↦ elim (success-cases v) [
    | inl good ↦ inl (rw e good)
    | inr (t, msg, bad) ↦ inr (t, msg, e ∙ ap some bad)
  ]
]

pub some_elem : (xs : List ℕ) → xs ≢ [] → (d : ℕ) × (elem d xs ≡ true)
unfolding elem
some_elem [] h = absurd (h refl)
some_elem (x ∷ xs) h = (x, ground (arith, ==_iff x x))

abbrev loaded_deps : Outcome (Func × Items × Fields) → List ℕ
loaded_deps (returned (func, args, kwargs)) = extract_dependencies args kwargs
loaded_deps (raised e) = []

module _ (p : Platform) where
  -- Nothing is left to run or to take in.
  pub record Quiet (r : Runtime p) : Type 0 where
    pub no_tasks : r.task_queue ≡ []
    pub no_reports : r.result_queue ≡ []

  -- What is not stored is the object of a waiting task.
  waiting_for :
      (o t : ℕ) (r : Runtime p)
      → Ready p r
      → Tracked p r
      → Quiet r
      → get_producer_task o r.ownership ≡ some t
      → ObjectStore.contains o r.object_store ≡ false
      → (u : ℕ) × (q : Pending) × (lookup u r.scheduler.pending_tasks ≡ some q)
        × (q.spec.object_id ≡ o)
  unfolding flying any
  waiting_for o t r ready h quiet prod missing =
      let inside : any (waiting_specs r.scheduler.pending_tasks) (gives o) ≡ true = ground (
        arith,
        h.placed o t prod,
        ap (λ x. any x (sends p o)) quiet.no_tasks,
        ap (λ x. any x (reports p o)) quiet.no_reports,
        ap (λ x. any (x ++ waiting_specs r.scheduler.pending_tasks) (gives o))
            ready.settled.sent_all,
      ) in
      let (u, q, found, its) =
        any-waiting_specs r.scheduler.pending_tasks (gives o) ready.settled.scheduled.unique
          inside in
      (u, q, found, sym ((==_iff o q.spec.object_id).0 its))

  -- The waiting task of a traced object was given what the lineage says.
  same_args :
      (q : Pending) (o t u : ℕ) (bytes : p.Bytes) (deps : List ℕ) (func : Func) (args : Items)
      (kwargs : Fields) (r : Runtime p)
      → Ready p r
      → lookup u r.scheduler.pending_tasks ≡ some q
      → q.spec.object_id ≡ o
      → get_producer_task o r.ownership ≡ some t
      → get_task_lineage t r.ownership ≡ some (bytes, deps)
      → p.loads_task bytes ≡ returned (func, args, kwargs)
      → spec_deps q.spec ≡ extract_dependencies args kwargs
  same_args q o t u bytes deps func args kwargs r ready found its prod lin loads =
      let spec = ready.sound.recorded.of_pending u q found in
      let same_task : q.spec.task_id ≡ t =
        some-injective _ _
          (sym spec.produces ∙ ap (λ x. get_producer_task x r.ownership) its ∙ prod) in
      let same_lineage =
        some-injective _ _
          (sym spec.lineage ∙ ap (λ x. get_task_lineage x r.ownership) same_task ∙ lin) in
      ap loaded_deps (
        sym (p.loads-dumps_task q.spec.func q.spec.args q.spec.kwargs)
        ∙ ap (λ (x : p.Bytes × List ℕ). p.loads_task x.0) same_lineage
        ∙ loads)

  -- The task of `o` was given `d`, or something that needs `d`.
  pub data Needs (table : OwnershipTable p.Bytes) : ℕ → ℕ → Type 0 where
    given :
        {o d : ℕ} (t : ℕ) (bytes : p.Bytes) (deps : List ℕ)
        → get_producer_task o table ≡ some t
        → get_task_lineage t table ≡ some (bytes, deps)
        → elem d deps ≡ true
        → Needs table o d
    through : {o d : ℕ} (m : ℕ) → Needs table o m → Needs table m d → Needs table o d

  abbrev pub Failing : Runtime p → ℕ → Type 0
  Failing r o = (d : ℕ) × Needs r.ownership o d × HasFailed r.object_store d

  -- In a runtime at work with nothing in its queues, every object that lineage alone gives is
  -- stored, or a task that it needs has failed.
  pub Quiet-stored :
      (r : Runtime p)
      → Ready p r
      → Tracked p r
      → Quiet r
      → (n o : ℕ) → IsTraced p r n o
      → (ObjectStore.contains o r.object_store ≡ true) ⊎ Failing r o
  unfolding ObjectStore.init ObjectStore.contains nano_ray.Prelude.Dict.contains lookup
  Quiet-stored r ready h quiet n o (stored there) = absurd (ground arith)
  Quiet-stored r ready h quiet (suc n) o (rebuilt t bytes func args kwargs prod lin loads deps) =
      elim (Bool-cases (ObjectStore.contains o r.object_store)) [
        | inl there ↦ inl there
        | inr missing ↦
            let (u, q, found, its) = waiting_for o t r ready h quiet prod missing in
            let (d, waits) =
              some_elem q.unresolved (ready.settled.scheduled.indexed u q found).waits in
            let its_dep : elem d (extract_dependencies args kwargs) ≡ true =
              subst (λ ds. elem d ds ≡ true)
                (same_args q o t u bytes _ func args kwargs r ready found its prod lin loads)
                (h.needed u q found d waits) in
            let link : Needs r.ownership o d =
              given t bytes (extract_dependencies args kwargs) prod lin its_dep in
            elim (Quiet-stored r ready h quiet n d (deps d its_dep)) [
              | inr (x, more, failure) ↦ inr (x, through d link more, failure)
              | inl there ↦ elim (stored-cases r.object_store d there) [
                | inl good ↦
                    absurd (ground (arith, ready.settled.scheduled.awaits u q found d waits))
                | inr failure ↦ inr (d, link, failure)
              ]
            ]
      ]
