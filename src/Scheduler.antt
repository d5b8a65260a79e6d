-- ===== src/Scheduler.antt =====
-- python/nano_ray/_fallback/scheduler.py: the class `Scheduler`. Each method holds the lock, or
-- touches the ready queue alone, so it is one step on the state; `queue.Queue` is a list, oldest
-- first. `timeout` is 0 in every call of `pop_ready_task`, so that it never waits.
pub mod Resolve
pub mod Index
pub mod Run
pub mod Specs
pub mod Conserve
pub mod Progress
use nano_ray.Prelude.{
  ℕ, List, [], ◌∷◌, ◌++◌, Option, none, some, Bool, not, is_empty, discard, set_of, get_or_else,
}
use nano_ray.Prelude.Dict.{Dict, lookup, insert, erase}
use nano_ray.Values.{TaskSpec}

-- An entry of `_pending_tasks`.
pub record Pending : Type 0 where
  pub spec : TaskSpec
  pub unresolved : List ℕ

pub record Scheduler : Type 0 where
  pub ready_queue : List TaskSpec
  pub pending_tasks : Dict Pending
  pub object_to_waiting : Dict (List ℕ)

unfoldable pub init : Scheduler
init = record { ready_queue = []; pending_tasks = []; object_to_waiting = [] }

-- `self._object_to_waiting.setdefault(dep_id, []).append(task_id)`, for each dependency in turn.
unfoldable pub index_all : ℕ → List ℕ → Dict (List ℕ) → Dict (List ℕ)
index_all task_id [] waiting = waiting
index_all task_id (dep_id ∷ deps) waiting =
    index_all task_id deps
      (insert dep_id (get_or_else (lookup dep_id waiting) [] ++ task_id ∷ []) waiting)

unfoldable pub submit : TaskSpec → Option (List ℕ) → Scheduler → Scheduler
submit task_spec dependencies s = elim (get_or_else dependencies []) [
  | [] ↦ record s { ready_queue = s.ready_queue ++ task_spec ∷ [] }
  | dep ∷ deps ↦ record s {
    pending_tasks =
        insert task_spec.task_id (record { spec = task_spec; unresolved = set_of (dep ∷ deps) })
          s.pending_tasks;
    object_to_waiting = index_all task_spec.task_id (dep ∷ deps) s.object_to_waiting;
  }
]

-- The body of the loop of `on_object_ready`, for one waiting task.
unfoldable pub unblock : ℕ → ℕ → Scheduler → Scheduler
unblock object_id task_id s = elim (lookup task_id s.pending_tasks) [
  | none ↦ s
  | some pending ↦
      let left = discard object_id pending.unresolved in
      elim (is_empty left) [
        | Bool.true ↦ record s {
          pending_tasks = erase task_id s.pending_tasks;
          ready_queue = s.ready_queue ++ pending.spec ∷ [];
        }
        | Bool.false ↦ record s {
          pending_tasks = insert task_id (record pending { unresolved = left }) s.pending_tasks;
        }
      ]
]

unfoldable pub unblock_all : ℕ → List ℕ → Scheduler → Scheduler
unblock_all object_id [] s = s
unblock_all object_id (task_id ∷ waiting) s =
    unblock_all object_id waiting (unblock object_id task_id s)

unfoldable pub on_object_ready : ℕ → Scheduler → Scheduler
on_object_ready object_id s =
    unblock_all object_id (get_or_else (lookup object_id s.object_to_waiting) [])
      (record s { object_to_waiting = erase object_id s.object_to_waiting })

-- The result and the new state.
unfoldable pub pop_ready_task : Scheduler → Option TaskSpec × Scheduler
pop_ready_task s = elim s.ready_queue [
  | [] ↦ (none, s)
  | spec ∷ rest ↦ (some spec, record s { ready_queue = rest })
]

unfoldable pub has_ready_tasks : Scheduler → Bool
has_ready_tasks s = not (is_empty s.ready_queue)
