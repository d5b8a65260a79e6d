-- ===== src/Scheduler/Index.antt =====
-- The reverse index `_object_to_waiting` of python/nano_ray/_fallback/scheduler.py against the
-- table `_pending_tasks`: the invariant, and what it buys `on_object_ready`.
use nano_ray.Prelude.{
  ℕ, ◌≡◌, refl, ◌≢◌, subst, sym, ==_iff, List, [], ◌∷◌, ◌++◌, Option, none, some, true, false, ◌||◌,
  arith, ◌==◌, elem, set_of, get_or_else, if◌then◌else◌, inl, inr, Bool-cases, Option-cases,
  discard, elem-append, elem-discard, elem-set_of,
}
use nano_ray.Prelude.Dict.{Dict, lookup, insert, erase, lookup-insert, lookup-erase}
use nano_ray.Values.{TaskSpec}
use nano_ray.Scheduler.{
  Scheduler, Pending, init, index_all, submit, unblock, unblock_all, on_object_ready,
  pop_ready_task,
}
use nano_ray.Scheduler.Run.{Call, submits, readies, pops, step, run}
use nano_ray.Scheduler.Resolve.{resolve, and_resolve, resolve_unrelated, lookup-unblock_all}

-- The tasks that `on_object_ready` looks at when an object arrives.
abbrev pub waiting_on : Dict (List ℕ) → ℕ → List ℕ
waiting_on index object_id = get_or_else (lookup object_id index) []

-- A pending task is filed under its id, still waits for something, and is found from everything
-- that it waits for.
pub record IsFiled (index : Dict (List ℕ)) (t : ℕ) (p : Pending) : Type 0 where
  pub named : p.spec.task_id ≡ t
  pub waits : p.unresolved ≢ []
  pub found : (d : ℕ) → elem d p.unresolved ≡ true → elem t (waiting_on index d) ≡ true

abbrev pub IsIndexed : Scheduler → Type 0
IsIndexed s =
    (t : ℕ) (p : Pending) → lookup t s.pending_tasks ≡ some p → IsFiled s.object_to_waiting t p

-- A waiting list only grows by `submit`, by the new task, at the task's dependencies.
waiting_on-index_all :
    (t d j : ℕ) (deps : List ℕ) (index : Dict (List ℕ))
    → elem j (waiting_on (index_all t deps index) d)
      ≡ (elem j (waiting_on index d) || (if j == t then elem d deps else false))
unfolding index_all elem
waiting_on-index_all t d j [] index = ground arith
waiting_on-index_all t d j (dep ∷ deps) index = ground (
  arith,
  waiting_on-index_all t d j deps (insert dep (get_or_else (lookup dep index) [] ++ t ∷ []) index),
  lookup-insert dep d (get_or_else (lookup dep index) [] ++ t ∷ []) index,
  elem-append j (get_or_else (lookup dep index) []) (t ∷ []),
)

-- What was found before stays found.
waiting_on-index_all_mono :
    (t d j : ℕ) (deps : List ℕ) (index : Dict (List ℕ))
    → elem j (waiting_on index d) ≡ true
    → elem j (waiting_on (index_all t deps index) d) ≡ true
waiting_on-index_all_mono t d j deps index h = rw (waiting_on-index_all t d j deps index, h)

IsFiled-new :
    (spec : TaskSpec) (dep : ℕ) (deps : List ℕ) (index : Dict (List ℕ))
    → IsFiled
        (index_all spec.task_id (dep ∷ deps) index)
        spec.task_id
        (record { spec = spec; unresolved = set_of (dep ∷ deps) })
unfolding set_of
IsFiled-new spec dep deps index = record {
  named = refl;
  waits = λ e. cc;
  found = λ d h. ground (
    arith,
    waiting_on-index_all spec.task_id d spec.task_id (dep ∷ deps) index,
    elem-set_of d (dep ∷ deps),
  );
}

submit_waiting :
    (spec : TaskSpec) (dep : ℕ) (deps : List ℕ) (s : Scheduler)
    → IsIndexed s
    → IsIndexed (submit spec (some (dep ∷ deps)) s)
unfolding submit
submit_waiting spec dep deps s inv t p e = elim (Bool-cases (t == spec.task_id)) [
  | inl new ↦
      subst (λ q. IsFiled (submit spec (some (dep ∷ deps)) s).object_to_waiting t q)
        (ground (arith, lookup-insert spec.task_id t fresh s.pending_tasks))
        (subst (λ k. IsFiled (submit spec (some (dep ∷ deps)) s).object_to_waiting k fresh)
          (sym ((==_iff t spec.task_id).0 new)) (IsFiled-new spec dep deps s.object_to_waiting))
  | inr old ↦
      let before : IsFiled s.object_to_waiting t p =
        inv t p (ground (arith, lookup-insert spec.task_id t fresh s.pending_tasks)) in
      record {
        named = before.named;
        waits = before.waits;
        found = λ d h.
            waiting_on-index_all_mono spec.task_id d t (dep ∷ deps) s.object_to_waiting
              (before.found d h);
      }
]
  where
    fresh : Pending
    fresh = record { spec = spec; unresolved = set_of (dep ∷ deps) }

unblock_all-index :
    (o : ℕ) (ts : List ℕ) (s : Scheduler)
    → (unblock_all o ts s).object_to_waiting ≡ s.object_to_waiting
unfolding unblock_all unblock
unblock_all-index o [] s = refl
unblock_all-index o (t ∷ ts) s = ground (arith, unblock_all-index o ts (unblock o t s))

-- The state in which `on_object_ready` runs its loop.
abbrev without : ℕ → Scheduler → Scheduler
without o s = record s { object_to_waiting = erase o s.object_to_waiting }

-- `on_object_ready` goes through the waiting list of the object alone. On an indexed table that
-- is as good as going through all pending tasks.
pub on_object_ready-resolve :
    (o j : ℕ) (s : Scheduler)
    → IsIndexed s
    → lookup j (on_object_ready o s).pending_tasks ≡ and_resolve o (lookup j s.pending_tasks)
unfolding on_object_ready
on_object_ready-resolve o j s inv = elim (Option-cases (lookup j s.pending_tasks)) [
  | inl e ↦ ground (arith, step)
  | inr (p, e) ↦ ground (arith, step, (inv j p e).found o, resolve_unrelated o p (inv j p e).waits)
]
  where
    step : lookup j (on_object_ready o s).pending_tasks ≡ (
        if elem j (waiting_on s.object_to_waiting o)
        then and_resolve o (lookup j s.pending_tasks)
        else lookup j s.pending_tasks)
    step = lookup-unblock_all o j (waiting_on s.object_to_waiting o) (without o s)

-- How a table entry comes about in the reference step.
resolve-IsFiled :
    (o t : ℕ) (p q : Pending) (index : Dict (List ℕ))
    → IsFiled index t p
    → resolve o p ≡ some q
    → IsFiled (erase o index) t q
unfolding resolve
resolve-IsFiled o t p q index f e = record {
  named = ground arith;
  waits = ground arith;
  found = λ d h. ground (arith, elem-discard d o p.unresolved, lookup-erase o d index, f.found d);
}

on_object_ready-IsIndexed : (o : ℕ) (s : Scheduler) → IsIndexed s → IsIndexed (on_object_ready o s)
unfolding on_object_ready
on_object_ready-IsIndexed o s inv t q e = elim (Option-cases (lookup t s.pending_tasks)) [
  | inl absent ↦ absurd (ground (arith, on_object_ready-resolve o t s inv))
  | inr (p, found) ↦ rw (unblock_all-index o (waiting_on s.object_to_waiting o) (without o s)) (
      resolve-IsFiled o t p q s.object_to_waiting (inv t p found)
        (ground (arith, on_object_ready-resolve o t s inv)))
]

submit-IsIndexed :
    (spec : TaskSpec) (deps : Option (List ℕ)) (s : Scheduler)
    → IsIndexed s
    → IsIndexed (submit spec deps s)
unfolding submit
submit-IsIndexed spec none s inv = inv
submit-IsIndexed spec (some []) s inv = inv
submit-IsIndexed spec (some (dep ∷ deps)) s inv = submit_waiting spec dep deps s inv

pub pop_ready_task_tables :
    (s : Scheduler)
    → ((pop_ready_task s).1.pending_tasks ≡ s.pending_tasks)
      × ((pop_ready_task s).1.object_to_waiting ≡ s.object_to_waiting)
unfolding pop_ready_task
pop_ready_task_tables s = ground arith

pop_ready_task-IsIndexed : (s : Scheduler) → IsIndexed s → IsIndexed (pop_ready_task s).1
pop_ready_task-IsIndexed s inv =
    let (pending, index) = pop_ready_task_tables s in rw (pending, index) inv

-- Every call keeps the table and the reverse index in step.
pub step-IsIndexed : (s : Scheduler) (c : Call) → IsIndexed s → IsIndexed (step s c)
unfolding step
step-IsIndexed s (submits spec deps) inv = submit-IsIndexed spec deps s inv
step-IsIndexed s (readies o) inv = on_object_ready-IsIndexed o s inv
step-IsIndexed s pops inv = pop_ready_task-IsIndexed s inv

pub run-IsIndexed : (s : Scheduler) (cs : List Call) → IsIndexed s → IsIndexed (run s cs)
unfolding run
run-IsIndexed s [] inv = inv
run-IsIndexed s (c ∷ cs) inv = run-IsIndexed (step s c) cs (step-IsIndexed s c inv)

-- After any history of calls, every pending task still waits for something, and the reverse index
-- finds it from each object that it waits for.
pub run-init-IsIndexed : (cs : List Call) → IsIndexed (run init cs)
unfolding init lookup
run-init-IsIndexed cs = run-IsIndexed init cs (λ t p e. cc)

pub pop_ready_task_first :
    (s : Scheduler) (spec : TaskSpec) (rest : List TaskSpec)
    → s.ready_queue ≡ spec ∷ rest
    → pop_ready_task s ≡ (some spec, record s { ready_queue = rest })
unfolding pop_ready_task
pop_ready_task_first s spec rest e = rw (pop_ready_task, e)

-- What stays pending when an object arrives has lost it.
pub on_object_ready_before :
    (o t : ℕ) (s : Scheduler) (q' : Pending)
    → IsIndexed s
    → lookup t (on_object_ready o s).pending_tasks ≡ some q'
    → (q : Pending) × (lookup t s.pending_tasks ≡ some q)
      × (q' ≡ record q { unresolved = discard o q.unresolved })
unfolding resolve
on_object_ready_before o t s q' inv e = elim (Option-cases (lookup t s.pending_tasks)) [
  | inl absent ↦ absurd (ground (arith, on_object_ready-resolve o t s inv))
  | inr (q, found) ↦ (q, found, ground (arith, on_object_ready-resolve o t s inv))
]
