-- ===== src/Scheduler/Specs.antt =====
-- What holds of every task that a scheduler of python/nano_ray/_fallback/scheduler.py holds, it
-- keeps true by itself: its calls only move tasks.
use nano_ray.Prelude.{
  ℕ, ◌≡◌, List, [], ◌∷◌, Option, none, some, arith, ◌==◌, discard, is_empty, inl, inr, Bool-cases,
  Option-cases, All, All-append, set_of, subst,
}
use nano_ray.Prelude.Dict.{lookup, insert, lookup-insert, lookup-erase}
use nano_ray.Values.{TaskSpec}
use nano_ray.Scheduler.{Scheduler, Pending, submit, unblock, unblock_all, on_object_ready}

module _ (P : TaskSpec → Type 0) where
  pub record AllSpecs (s : Scheduler) : Type 0 where
    pub of_ready : All P s.ready_queue
    pub of_pending : (t : ℕ) (q : Pending) → lookup t s.pending_tasks ≡ some q → P q.spec

  -- A table entry is replaced or added.
  insert_specs :
      (t : ℕ) (q : Pending) (s : Scheduler)
      → P q.spec
      → AllSpecs s
      → (j : ℕ) (q' : Pending) → lookup j (insert t q s.pending_tasks) ≡ some q'
      → P q'.spec
  insert_specs t q s mine h j q' e = elim (Bool-cases (j == t)) [
    | inl same ↦
        let new : q ≡ q' = ground (arith, lookup-insert t j q s.pending_tasks) in
        subst (λ (x : Pending). P x.spec) new mine
    | inr other ↦ h.of_pending j q' (ground (arith, lookup-insert t j q s.pending_tasks))
  ]

  pub submit-AllSpecs :
      (spec : TaskSpec) (deps : Option (List ℕ)) (s : Scheduler)
      → P spec
      → AllSpecs s
      → AllSpecs (submit spec deps s)
  unfolding submit
  submit-AllSpecs spec none s mine h = record {
    of_ready = All-append P s.ready_queue (spec ∷ []) h.of_ready (mine, tt);
    of_pending = h.of_pending;
  }
  submit-AllSpecs spec (some []) s mine h = record {
    of_ready = All-append P s.ready_queue (spec ∷ []) h.of_ready (mine, tt);
    of_pending = h.of_pending;
  }
  submit-AllSpecs spec (some (dep ∷ deps)) s mine h = record {
    of_ready = h.of_ready;
    of_pending =
        insert_specs spec.task_id (record { spec = spec; unresolved = set_of (dep ∷ deps) }) s mine
          h;
  }

  unblock-AllSpecs : (o t : ℕ) (s : Scheduler) → AllSpecs s → AllSpecs (unblock o t s)
  unfolding unblock
  unblock-AllSpecs o t s h = elim (Option-cases (lookup t s.pending_tasks)) [
    | inl e ↦ rw (e, unblock) h
    | inr (q, e) ↦ elim (Bool-cases (is_empty (discard o q.unresolved))) [
      | inl done ↦
          rw (e, unblock, done)
            (record {
              of_ready =
                  All-append P s.ready_queue (q.spec ∷ []) h.of_ready (h.of_pending t q e, tt);
              of_pending =
                  λ j q' e'. h.of_pending j q' (ground (arith, lookup-erase t j s.pending_tasks));
            })
      | inr more ↦
          rw (e, unblock, more)
            (record {
              of_ready = h.of_ready;
              of_pending =
                  insert_specs t (record q { unresolved = discard o q.unresolved }) s
                    (h.of_pending t q e) h;
            })
    ]
  ]

  unblock_all-AllSpecs :
      (o : ℕ) (ts : List ℕ) (s : Scheduler) → AllSpecs s → AllSpecs (unblock_all o ts s)
  unfolding unblock_all
  unblock_all-AllSpecs o [] s h = h
  unblock_all-AllSpecs o (t ∷ ts) s h =
      unblock_all-AllSpecs o ts (unblock o t s) (unblock-AllSpecs o t s h)

  pub on_object_ready-AllSpecs :
      (o : ℕ) (s : Scheduler) → AllSpecs s → AllSpecs (on_object_ready o s)
  unfolding on_object_ready
  on_object_ready-AllSpecs o s h =
      unblock_all-AllSpecs o _ _ (record { of_ready = h.of_ready; of_pending = h.of_pending })
