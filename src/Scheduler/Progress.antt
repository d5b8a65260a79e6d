-- ===== src/Scheduler/Progress.antt =====
-- When a task of python/nano_ray/_fallback/scheduler.py becomes ready.
use mathlib.Core.HLevel.{⊥_prop}
use mathlib.Core.Logic.Or
use mathlib.Core.Logic.{∥∥₁_elim}
use mathlib.Core.List.Perm
use mathlib.Core.List.{Mem, mem-append, mem-cons_self, mem-append_left, mem-append_right}
use nano_ray.Prelude.{
  ℕ, ◌≡◌, refl, sym, ◌∙◌, subst, ◌≢◌, List, [], ◌∷◌, ◌++◌, Option, none, some, true, not, arith,
  discard, set_of, subset, discard_all, is_empty, if◌then◌else◌, inl, inr, Bool-cases,
  subset-set_of, is_empty-discard_all, is_empty-eq-true, discard_all-nil, ap,
}
use nano_ray.Prelude.Dict.{lookup, lookup-insert, contains, IsUnique, lookup_of_mem-values}
use nano_ray.Values.{TaskSpec}
use nano_ray.Scheduler.{Scheduler, Pending, submit}
use nano_ray.Scheduler.Resolve.{resolve, and_resolve}
use nano_ray.Scheduler.Index.{
  IsIndexed, on_object_ready-resolve, pop_ready_task_tables, step-IsIndexed, run-IsIndexed,
}
use nano_ray.Scheduler.Conserve.{held, IsFresh, run-perm, run-IsUnique}
use nano_ray.Scheduler.Run.{Call, submits, readies, pops, step, run, submitted, answer, popped}

-- The objects that a history announced.
unfoldable pub announced : List Call → List ℕ
announced [] = []
announced (submits spec deps ∷ cs) = announced cs
announced (readies o ∷ cs) = o ∷ announced cs
announced (pops ∷ cs) = announced cs

-- No later submission takes the id `t`.
abbrev pub IsSettled : ℕ → List Call → Type 0
IsSettled t [] = Unit
IsSettled t (submits spec deps ∷ cs) = (spec.task_id ≢ t) × IsSettled t cs
IsSettled t (readies o ∷ cs) = IsSettled t cs
IsSettled t (pops ∷ cs) = IsSettled t cs

and_resolve_all : List ℕ → Option Pending → Option Pending
and_resolve_all [] r = r
and_resolve_all (o ∷ os) r = and_resolve_all os (and_resolve o r)

and_resolve_all-none : (os : List ℕ) → and_resolve_all os none ≡ none
unfolding and_resolve_all
and_resolve_all-none [] = refl
and_resolve_all-none (o ∷ os) = and_resolve_all-none os

submit_other :
    (t : ℕ) (spec : TaskSpec) (deps : Option (List ℕ)) (s : Scheduler)
    → spec.task_id ≢ t
    → lookup t (submit spec deps s).pending_tasks ≡ lookup t s.pending_tasks
unfolding submit
submit_other t spec none s h = refl
submit_other t spec (some []) s h = refl
submit_other t spec (some (dep ∷ deps)) s h = ground (
  arith,
  lookup-insert spec.task_id t (record { spec = spec; unresolved = set_of (dep ∷ deps) })
      s.pending_tasks,
)

lookup-run :
    (t : ℕ) (s : Scheduler) (cs : List Call)
    → IsIndexed s
    → IsSettled t cs
    → lookup t (run s cs).pending_tasks ≡ and_resolve_all (announced cs) (lookup t s.pending_tasks)
unfolding run announced and_resolve_all
lookup-run t s [] inv h = refl
lookup-run t s (submits spec deps ∷ cs) inv h =
    lookup-run t (step s (submits spec deps)) cs (step-IsIndexed s (submits spec deps) inv) h.1
    ∙ ap (and_resolve_all (announced cs)) (submit_other t spec deps s h.0)
lookup-run t s (readies o ∷ cs) inv h =
    lookup-run t (step s (readies o)) cs (step-IsIndexed s (readies o) inv) h
    ∙ ap (and_resolve_all (announced cs)) (on_object_ready-resolve o t s inv)
lookup-run t s (pops ∷ cs) inv h =
    lookup-run t (step s pops) cs (step-IsIndexed s pops inv) h
    ∙ ap (λ d. and_resolve_all (announced cs) (lookup t d)) (pop_ready_task_tables s).0

-- Announcing objects leaves the entry without them, or no entry.
and_resolve_all-some :
    (os : List ℕ) (p : Pending)
    → p.unresolved ≢ []
    → and_resolve_all os (some p) ≡ (
        if is_empty (discard_all os p.unresolved)
        then none
        else some (record p { unresolved = discard_all os p.unresolved }))
unfolding and_resolve_all discard_all resolve
and_resolve_all-some [] p h = ground arith
and_resolve_all-some (o ∷ os) p h = elim (Bool-cases (is_empty (discard o p.unresolved))) [
  | inl done ↦ ground (
    arith,
    is_empty-eq-true (discard o p.unresolved) done,
    and_resolve_all-none os,
    discard_all-nil os,
  )
  | inr more ↦
      ground (arith, and_resolve_all-some os (record p { unresolved = discard o p.unresolved }))
]

-- The table entry that `submit` makes.
abbrev entry : TaskSpec → List ℕ → Pending
entry spec deps = record { spec = spec; unresolved = set_of deps }

entry_waits :
    (spec : TaskSpec) (dep : ℕ) (deps : List ℕ) → (entry spec (dep ∷ deps)).unresolved ≢ []
unfolding set_of
entry_waits spec dep deps = λ e. cc

lookup-submit :
    (spec : TaskSpec) (dep : ℕ) (deps : List ℕ) (s : Scheduler)
    → lookup spec.task_id (submit spec (some (dep ∷ deps)) s).pending_tasks
      ≡ some (entry spec (dep ∷ deps))
unfolding submit
lookup-submit spec dep deps s =
    ground
      (arith, lookup-insert spec.task_id spec.task_id (entry spec (dep ∷ deps)) s.pending_tasks)

module _ (spec : TaskSpec) (dep : ℕ) (deps : List ℕ) (s : Scheduler) (cs : List Call)
    (inv : IsIndexed s) (settled : IsSettled spec.task_id cs) where
  abbrev after : Scheduler
  after = run (submit spec (some (dep ∷ deps)) s) cs

  lookup-run-submit : lookup spec.task_id after.pending_tasks ≡ (
      if subset (dep ∷ deps) (announced cs)
      then none
      else some (record (entry spec (dep ∷ deps)) {
        unresolved = discard_all (announced cs) (set_of (dep ∷ deps));
      }))
  unfolding step
  lookup-run-submit = ground (
    arith,
    lookup-run spec.task_id (submit spec (some (dep ∷ deps)) s) cs
        (step-IsIndexed s (submits spec (some (dep ∷ deps))) inv) settled,
    lookup-submit spec dep deps s,
    and_resolve_all-some (announced cs) (entry spec (dep ∷ deps)) (entry_waits spec dep deps),
    is_empty-discard_all (announced cs) (set_of (dep ∷ deps)),
    subset-set_of (dep ∷ deps) (announced cs),
  )

  -- On an indexed scheduler, a task that is submitted with dependencies, and whose id no later
  -- submission takes, waits as long as one of them has not been announced after its submission, and
  -- no longer.
  pub contains-run-submit :
      contains spec.task_id after.pending_tasks ≡ not (subset (dep ∷ deps) (announced cs))
  unfolding contains
  contains-run-submit = ground (arith, lookup-run-submit)

  -- On an indexed scheduler whose waiting tasks have distinct ids, in a history in which no task at all
  -- is submitted under the id of one that waits then: a task that is submitted with dependencies, and
  -- whose id no later submission takes, has been handed out or is ready once all of its dependencies
  -- have been announced.
  pub mem-popped-ready :
      IsUnique s.pending_tasks
      → IsFresh s (submits spec (some (dep ∷ deps)) ∷ cs)
      → subset (dep ∷ deps) (announced cs) ≡ true
      → Mem spec (popped (submit spec (some (dep ∷ deps)) s) cs ++ after.ready_queue)
  unfolding step popped answer submitted run
  mem-popped-ready u fresh all =
      Or.elim squash₁ (mem-append.0 somewhere) mem-append_left' (λ held_now.
        Or.elim squash₁ (mem-append.0 held_now) (λ m. mem-append_right _ m)
          (λ m. absurd (
            ∥∥₁_elim
              (lookup_of_mem-values (λ (p : Pending). p.spec) spec after.pending_tasks after_unique
                m)
              ⊥_prop still)))
    where
      after_unique : IsUnique after.pending_tasks
      after_unique = run-IsUnique s (submits spec (some (dep ∷ deps)) ∷ cs) u

      somewhere : Mem spec (popped (submit spec (some (dep ∷ deps)) s) cs ++ held after)
      somewhere =
          Perm.subset (Perm.symm (run-perm s (submits spec (some (dep ∷ deps)) ∷ cs) u fresh)) spec
            mem-cons_self

      mem-append_left' :
          Mem spec (popped (submit spec (some (dep ∷ deps)) s) cs)
          → Mem spec (popped (submit spec (some (dep ∷ deps)) s) cs ++ after.ready_queue)
      mem-append_left' m = mem-append_left _ m

      still :
          (k : ℕ) × (p : Pending) × (lookup k after.pending_tasks ≡ some p) × (p.spec ≡ spec) → ⊥
      still (k, p, found, same) =
          let filed = run-IsIndexed s (submits spec (some (dep ∷ deps)) ∷ cs) inv k p found in
          let key : k ≡ spec.task_id = sym filed.named ∙ ap (λ (t : TaskSpec). t.task_id) same in
          let found' : lookup spec.task_id after.pending_tasks ≡ some p =
            subst (λ j. lookup j after.pending_tasks ≡ some p) key found in
          ground (arith, lookup-run-submit)
