-- ===== src/Driver/Covered.antt =====
-- The scheduler of a runtime (python/nano_ray/driver.py) against its object store: what a task no
-- longer waits for is stored.
use nano_ray.Prelude.{
  ℕ, ◌≡◌, refl, sym, ◌∙◌, subst, List, [], ◌∷◌, some, true, false, arith, ◌==◌, elem, discard,
  is_empty, elem-discard, inl, inr, Bool-cases, Option-cases, All, All-append, All-map, ap, ==_iff,
  is_empty-eq-true,
}
use nano_ray.Prelude.Dict.{lookup, insert, lookup-insert, lookup-erase}
use nano_ray.ObjectStore
use nano_ray.ObjectStore.{ObjectStore}
use nano_ray.Scheduler.{Scheduler, Pending, unblock, unblock_all, on_object_ready}
use nano_ray.Driver.Flush.{spec_deps, AllStored}

-- Each dependency of a pending task is awaited or stored, and those of a ready task are stored.
pub record Covered (store : ObjectStore) (s : Scheduler) : Type 0 where
  pub pending_covered :
      (t : ℕ) (q : Pending)
      → lookup t s.pending_tasks ≡ some q
      → (d : ℕ) → elem d (spec_deps q.spec) ≡ true
      → elem d q.unresolved ≡ false
      → ObjectStore.contains d store ≡ true
  pub ready_covered : All (λ spec. AllStored store (spec_deps spec)) s.ready_queue

-- Covered stays so while the store grows.
pub Covered-mono :
    (store store' : ObjectStore) (s : Scheduler)
    → ((d : ℕ) → ObjectStore.contains d store ≡ true → ObjectStore.contains d store' ≡ true)
    → Covered store s
    → Covered store' s
Covered-mono store store' s grows c = record {
  pending_covered = λ t q e d h u. grows d (c.pending_covered t q e d h u);
  ready_covered = All-map s.ready_queue (λ spec h d e. grows d (h d e)) c.ready_covered;
}

-- Striking a stored object off leaves only stored ones uncovered.
discard_covered :
    (store : ObjectStore) (o d : ℕ) (unresolved : List ℕ)
    → ObjectStore.contains o store ≡ true
    → (elem d unresolved ≡ false → ObjectStore.contains d store ≡ true)
    → elem d (discard o unresolved) ≡ false
    → ObjectStore.contains d store ≡ true
discard_covered store o d unresolved there covered gone = elim (Bool-cases (d == o)) [
  | inl same ↦ subst (λ k. ObjectStore.contains k store ≡ true) (sym ((==_iff d o).0 same)) there
  | inr other ↦ covered (ground (arith, elem-discard d o unresolved))
]

update-Covered :
    (store : ObjectStore) (o t : ℕ) (q : Pending) (s : Scheduler)
    → ObjectStore.contains o store ≡ true
    → Covered store s
    → (q₁ : Pending) → q₁.spec ≡ q.spec
    → q₁.unresolved ≡ discard o q.unresolved
    → lookup t s.pending_tasks ≡ some q
    → (j : ℕ) (q' : Pending) → lookup j (insert t q₁ s.pending_tasks) ≡ some q'
    → (d : ℕ) → elem d (spec_deps q'.spec) ≡ true
    → elem d q'.unresolved ≡ false
    → ObjectStore.contains d store ≡ true
update-Covered store o t q s there c q₁ same left e j q' e' d h u = elim (Bool-cases (j == t)) [
  | inl here ↦
      let new : q₁ ≡ q' = ground (arith, lookup-insert t j q₁ s.pending_tasks) in
      discard_covered store o d q.unresolved there
        (λ gone.
          c.pending_covered t q e d
            (subst (λ x. elem d (spec_deps x) ≡ true)
              (sym (ap (λ (x : Pending). x.spec) new) ∙ same) h)
            gone)
        (subst (λ x. elem d x ≡ false) (sym (ap (λ (x : Pending). x.unresolved) new) ∙ left) u)
  | inr other ↦ c.pending_covered j q' (ground (arith, lookup-insert t j q₁ s.pending_tasks)) d h u
]

unblock-Covered :
    (store : ObjectStore) (o t : ℕ) (s : Scheduler)
    → ObjectStore.contains o store ≡ true
    → Covered store s
    → Covered store (unblock o t s)
unfolding unblock elem
unblock-Covered store o t s there c = elim (Option-cases (lookup t s.pending_tasks)) [
  | inl e ↦ rw (e, unblock) c
  | inr (q, e) ↦ elim (Bool-cases (is_empty (discard o q.unresolved))) [
    | inl done ↦
        rw (e, unblock, done)
          (record {
            pending_covered = λ j q' e' d h u.
                c.pending_covered j q' (ground (arith, lookup-erase t j s.pending_tasks)) d h u;
            ready_covered = All-append _ s.ready_queue (q.spec ∷ []) c.ready_covered (
              (λ d h.
                  discard_covered store o d q.unresolved there (c.pending_covered t q e d h)
                    (ground (arith, is_empty-eq-true (discard o q.unresolved) done))),
              tt,
            );
          })
    | inr more ↦
        rw (e, unblock, more)
          (record {
            pending_covered =
                update-Covered store o t q s there c
                  (record q { unresolved = discard o q.unresolved }) refl refl e;
            ready_covered = c.ready_covered;
          })
  ]
]

unblock_all-Covered :
    (store : ObjectStore) (o : ℕ) (ts : List ℕ) (s : Scheduler)
    → ObjectStore.contains o store ≡ true
    → Covered store s
    → Covered store (unblock_all o ts s)
unfolding unblock_all
unblock_all-Covered store o [] s there c = c
unblock_all-Covered store o (t ∷ ts) s there c =
    unblock_all-Covered store o ts (unblock o t s) there (unblock-Covered store o t s there c)

-- The announcement of a stored object keeps the scheduler covered.
pub on_object_ready-Covered :
    (store : ObjectStore) (o : ℕ) (s : Scheduler)
    → ObjectStore.contains o store ≡ true
    → Covered store s
    → Covered store (on_object_ready o s)
unfolding on_object_ready
on_object_ready-Covered store o s there c =
    unblock_all-Covered store o _ _ there
      (record { pending_covered = c.pending_covered; ready_covered = c.ready_covered })
