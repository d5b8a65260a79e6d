-- ===== src/Scheduler/Resolve.antt =====
-- What `on_object_ready` of python/nano_ray/_fallback/scheduler.py does to one pending task, and to
-- the whole table as far as the waiting list names its tasks.
use nano_ray.Prelude.{
  ℕ, ◌≡◌, refl, ◌≢◌, List, [], ◌∷◌, Option, none, some, false, arith, ◌==◌, elem, discard, is_empty,
  if◌then◌else◌, inl, inr, Option-cases, discard_absent, discard-discard,
}
use nano_ray.Prelude.Dict.{lookup, lookup-insert, lookup-erase}
use nano_ray.Scheduler.{Scheduler, Pending, unblock, unblock_all}

-- The reference: a pending task loses one dependency, and goes when none is left.
unfoldable pub resolve : ℕ → Pending → Option Pending
resolve object_id p =
    let left = discard object_id p.unresolved in
    if is_empty left then none else some (record p { unresolved = left })

abbrev pub and_resolve : ℕ → Option Pending → Option Pending
and_resolve object_id none = none
and_resolve object_id (some p) = resolve object_id p

pub resolve_twice : (o : ℕ) (r : Option Pending) → and_resolve o (and_resolve o r) ≡ and_resolve o r
unfolding resolve
resolve_twice o none = refl
resolve_twice o (some p) = ground (arith, discard-discard o p.unresolved)

pub resolve_unrelated :
    (o : ℕ) (p : Pending) → p.unresolved ≢ [] → elem o p.unresolved ≡ false → resolve o p ≡ some p
unfolding resolve
resolve_unrelated o p h a = ground (arith, discard_absent o p.unresolved)

lookup-unblock :
    (o t j : ℕ) (s : Scheduler)
    → lookup j (unblock o t s).pending_tasks
      ≡ (if j == t then and_resolve o (lookup t s.pending_tasks) else lookup j s.pending_tasks)
unfolding unblock resolve
lookup-unblock o t j s = elim (Option-cases (lookup t s.pending_tasks)) [
  | inl e ↦ rw (e, unblock) (ground arith)
  | inr (p, e) ↦
      rw (e, unblock)
        (ground (
          arith,
          lookup-erase t j s.pending_tasks,
          lookup-insert t j (record p { unresolved = discard o p.unresolved }) s.pending_tasks,
        ))
]

pub lookup-unblock_all :
    (o j : ℕ) (ts : List ℕ) (s : Scheduler)
    → lookup j (unblock_all o ts s).pending_tasks
      ≡ (if elem j ts then and_resolve o (lookup j s.pending_tasks) else lookup j s.pending_tasks)
unfolding unblock_all elem
lookup-unblock_all o j [] s = refl
lookup-unblock_all o j (t ∷ ts) s = ground (
  arith,
  lookup-unblock_all o j ts (unblock o t s),
  lookup-unblock o t j s,
  resolve_twice o (lookup j s.pending_tasks),
)
