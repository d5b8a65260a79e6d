-- ===== src/Driver/Scheduling.antt =====
-- The invariant that joins the scheduler of a runtime (python/nano_ray/driver.py) to its object
-- store, through `submit` with its re-trigger and through the announcement of an object.
use nano_ray.Prelude.{
  ℕ, ◌≡◌, refl, sym, ◌∙◌, subst, ap, List, [], ◌∷◌, ◌⊎◌, Option, none, some, Bool, true, false,
  arith, ◌==◌, if◌then◌else◌, elem, discard, set_of, elem-discard, elem-set_of, inl, inr,
  Bool-cases, if_keeps, All, All-append, ==_iff,
}
use nano_ray.Prelude.Dict.{lookup, lookup-insert, IsUnique}
use nano_ray.Values.{Value, task_error, TaskSpec}
use nano_ray.ObjectStore
use nano_ray.ObjectStore.{ObjectStore}
use nano_ray.ObjectStore.Laws.{content, contains-content}
use nano_ray.Scheduler.{Scheduler, Pending, on_object_ready, submit}
use nano_ray.Scheduler.Index.{IsIndexed, step-IsIndexed, on_object_ready_before}
use nano_ray.Scheduler.Run.{submits, readies, step}
use nano_ray.Scheduler.Conserve.{step-IsUnique}
use nano_ray.Driver.{or_none, retrigger}
use nano_ray.Driver.Flush.{spec_deps, AllStored}
use nano_ray.Driver.Covered.{Covered, on_object_ready-Covered}

abbrev pub is_success : Option Value → Bool
is_success none = false
is_success (some (task_error t e)) = false
is_success (some _) = true

-- The object is stored and is no `_TaskError`.
unfoldable pub succeeded : ObjectStore → ℕ → Bool
succeeded store o = is_success (content store o)

pub succeeded-contains :
    (store : ObjectStore) (o : ℕ) → ObjectStore.contains o store ≡ false → succeeded store o ≡ false
unfolding succeeded
succeeded-contains store o h = ground (arith, contains-content o store)

-- No pending task waits for an object whose task has succeeded.
abbrev pub Awaits : ObjectStore → Scheduler → Type 0
Awaits store s =
    (t : ℕ) (q : Pending)
    → lookup t s.pending_tasks ≡ some q
    → (d : ℕ) → elem d q.unresolved ≡ true
    → succeeded store d ≡ false

pub record Scheduled (store : ObjectStore) (s : Scheduler) : Type 0 where
  pub indexed : IsIndexed s
  pub unique : IsUnique s.pending_tasks
  pub covered : Covered store s
  pub awaits : Awaits store s

-- The announcement of an object that is stored.
pub on_object_ready-Scheduled :
    (store : ObjectStore) (o : ℕ) (s : Scheduler)
    → ObjectStore.contains o store ≡ true
    → Scheduled store s
    → Scheduled store (on_object_ready o s)
unfolding step
on_object_ready-Scheduled store o s there inv = record {
  indexed = step-IsIndexed s (readies o) inv.indexed;
  unique = step-IsUnique s (readies o) inv.unique;
  covered = on_object_ready-Covered store o s there inv.covered;
  awaits = λ t q' e d h.
      let (q, found, same) = on_object_ready_before o t s q' inv.indexed e in
      inv.awaits t q found d (ground (arith, elem-discard d o q.unresolved));
}

-- What every announcement of a stored object keeps, the re-trigger keeps.
pub retrigger_ind :
    (store : ObjectStore) (P : Scheduler → Type 0)
    → ((d : ℕ) (s : Scheduler)
        → ObjectStore.contains d store ≡ true
        → P s
        → P (on_object_ready d s))
    → (dids : List ℕ) (s : Scheduler) → P s
    → P (retrigger store dids s)
unfolding retrigger
retrigger_ind store P keep [] s h = h
retrigger_ind store P keep (d ∷ dids) s h =
    retrigger_ind store P keep dids _
      (if_keeps P (ObjectStore.contains d store) (λ there. keep d s there h) h)

-- A dependency list without its head.
elem_rest : (d o : ℕ) (os : List ℕ) → d == o ≡ false → elem d (o ∷ os) ≡ true → elem d os ≡ true
unfolding elem
elem_rest d o os other h = ground arith

-- What a task still waits for after the re-trigger: it did before, and, if it is one of the
-- objects that were tried, it is not stored.
pub record StillWaits (store : ObjectStore) (dids : List ℕ) (q q' : Pending) : Type 0 where
  pub same : q'.spec ≡ q.spec
  pub waited : (d : ℕ) → elem d q'.unresolved ≡ true → elem d q.unresolved ≡ true
  pub missing :
      (d : ℕ)
      → elem d q'.unresolved ≡ true
      → elem d dids ≡ true
      → ObjectStore.contains d store ≡ false

still_after :
    (store : ObjectStore) (o : ℕ) (dids : List ℕ) (q q₁ q' : Pending)
    → q₁ ≡ record q { unresolved = discard o q.unresolved }
    → StillWaits store dids q₁ q'
    → StillWaits store (o ∷ dids) q q'
still_after store o dids q q₁ q' lost w = record {
  same = w.same ∙ ap (λ (x : Pending). x.spec) lost;
  waited = λ d h. ground (arith, left d h, elem-discard d o q.unresolved);
  missing = λ d h k.
      w.missing d h
        (elem_rest d o dids (ground (arith, left d h, elem-discard d o q.unresolved)) k);
}
  where
    left : (d : ℕ) → elem d q'.unresolved ≡ true → elem d (discard o q.unresolved) ≡ true
    left d h = subst (λ x. elem d x ≡ true) (ap (λ (x : Pending). x.unresolved) lost) (w.waited d h)

pub retrigger_before :
    (store : ObjectStore) (dids : List ℕ) (t : ℕ) (s : Scheduler) (q' : Pending)
    → IsIndexed s
    → lookup t (retrigger store dids s).pending_tasks ≡ some q'
    → (q : Pending) × (lookup t s.pending_tasks ≡ some q) × StillWaits store dids q q'
unfolding retrigger elem step
retrigger_before store [] t s q' inv e =
    (q', e, record { same = refl; waited = λ d h. h; missing = λ d h k. absurd (ground arith) })
retrigger_before store (o ∷ dids) t s q' inv e = elim (Bool-cases (ObjectStore.contains o store)) [
  | inl there ↦
      let e₁ : lookup t (retrigger store dids (on_object_ready o s)).pending_tasks ≡ some q' =
        subst
          (λ b.
            lookup t (retrigger store dids (if b then on_object_ready o s else s)).pending_tasks
            ≡ some q')
          there e in
      let (q₁, found₁, w) =
        retrigger_before store dids t (on_object_ready o s) q' (step-IsIndexed s (readies o) inv)
          e₁ in
      let (q, found, lost) = on_object_ready_before o t s q₁ inv found₁ in
      (q, found, still_after store o dids q q₁ q' lost w)
  | inr absent ↦
      let e₁ : lookup t (retrigger store dids s).pending_tasks ≡ some q' =
        subst
          (λ b.
            lookup t (retrigger store dids (if b then on_object_ready o s else s)).pending_tasks
            ≡ some q')
          absent e in
      let (q, found, w) = retrigger_before store dids t s q' inv e₁ in
      (
        q,
        found,
        record {
          same = w.same;
          waited = w.waited;
          missing = λ d h k. elim (Bool-cases (d == o)) [
            | inl here ↦ rw ((==_iff d o).0 here) absent
            | inr other ↦ w.missing d h (elem_rest d o dids other k)
          ];
        },
      )
]

-- What is pending after a submission was pending before, or is the new task.
pub submit_before :
    (spec : TaskSpec) (deps : List ℕ) (s : Scheduler) (t : ℕ) (q : Pending)
    → lookup t (submit spec (or_none deps) s).pending_tasks ≡ some q
    → (lookup t s.pending_tasks ≡ some q) ⊎ (q ≡ record { spec = spec; unresolved = set_of deps })
unfolding submit
submit_before spec [] s t q e = inl e
submit_before spec (dep ∷ deps) s t q e = elim (Bool-cases (t == spec.task_id)) [
  | inl new ↦ inr (ground (arith, lookup-insert spec.task_id t fresh s.pending_tasks))
  | inr old ↦ inl (ground (arith, lookup-insert spec.task_id t fresh s.pending_tasks))
]
  where
    fresh : Pending
    fresh = record { spec = spec; unresolved = set_of (dep ∷ deps) }

-- A new task waits for its dependencies and for nothing else.
pub new_waits :
    (d : ℕ) (q : Pending) (spec : TaskSpec)
    → q ≡ record { spec = spec; unresolved = set_of (spec_deps spec) }
    → elem d q.unresolved ≡ elem d (spec_deps q.spec)
new_waits d q spec new =
    ap (λ (x : Pending). elem d x.unresolved) new
    ∙ elem-set_of d (spec_deps spec)
    ∙ sym (ap (λ (x : Pending). elem d (spec_deps x.spec)) new)

submit-ready :
    (store : ObjectStore) (spec : TaskSpec) (deps : List ℕ) (s : Scheduler)
    → deps ≡ spec_deps spec
    → Covered store s
    → All (λ x. AllStored store (spec_deps x)) (submit spec (or_none deps) s).ready_queue
unfolding submit elem
submit-ready store spec [] s e c =
    All-append _ s.ready_queue (spec ∷ []) c.ready_covered ((λ d h. absurd (ground (arith, e))), tt)
submit-ready store spec (dep ∷ deps) s e c = c.ready_covered

submit-Covered :
    (store : ObjectStore) (spec : TaskSpec) (s : Scheduler)
    → Covered store s
    → Covered store (submit spec (or_none (spec_deps spec)) s)
submit-Covered store spec s c = record {
  pending_covered = λ t q e d h u. elim (submit_before spec (spec_deps spec) s t q e) [
    | inl old ↦ c.pending_covered t q old d h u
    | inr new ↦ absurd (ground (arith, new_waits d q spec new, h, u))
  ];
  ready_covered = submit-ready store spec (spec_deps spec) s refl c;
}

-- A submission with its re-trigger keeps the invariant, whatever is stored already.
pub enter-Scheduled :
    (store : ObjectStore) (spec : TaskSpec) (s : Scheduler)
    → Scheduled store s
    → Scheduled store (retrigger store (spec_deps spec) (submit spec (or_none (spec_deps spec)) s))
unfolding step
enter-Scheduled store spec s inv = record {
  indexed =
      retrigger_ind store IsIndexed (λ d x _ h. step-IsIndexed x (readies d) h) deps _ entered;
  unique =
      retrigger_ind store (λ x. IsUnique x.pending_tasks) (λ d x _ h. step-IsUnique x (readies d) h)
        deps _ (step-IsUnique s (submits spec (or_none deps)) inv.unique);
  covered =
      retrigger_ind store (Covered store) (λ d x. on_object_ready-Covered store d x) deps _
        (submit-Covered store spec s inv.covered);
  awaits = λ t q' e d h.
      let (q, found, w) = retrigger_before store deps t _ q' entered e in
      elim (submit_before spec deps s t q found) [
        | inl old ↦ inv.awaits t q old d (w.waited d h)
        | inr new ↦ succeeded-contains store d (
            w.missing d h (
              subst (λ (x : Pending). elem d (spec_deps x.spec) ≡ true) new
                (sym (new_waits d q spec new) ∙ w.waited d h)))
      ];
}
  where
    deps : List ℕ
    deps = spec_deps spec

    entered : IsIndexed (submit spec (or_none deps) s)
    entered = step-IsIndexed s (submits spec (or_none deps)) inv.indexed
