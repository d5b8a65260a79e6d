-- ===== src/Ownership/Calls.antt =====
-- The calls that update entries of the table of python/nano_ray/_fallback/ownership.py, as data.
use Prim.Native.String.{String}
use nano_ray.Prelude.{ℕ, List, [], ◌∷◌}
use nano_ray.Ownership.{OwnershipTable, task_finished, task_failed, add_ref, remove_ref}

pub data Call : Type 0 where
  finishes : (task_id : ℕ) → Call
  fails : (task_id : ℕ) (message : String) → Call
  adds : (object_id : ℕ) → Call
  removes : (object_id : ℕ) → Call

module _ {Bytes : Type 0} where
  unfoldable pub step : OwnershipTable Bytes → Call → OwnershipTable Bytes
  step t (finishes task_id) = task_finished task_id t
  step t (fails task_id message) = task_failed task_id message t
  step t (adds object_id) = add_ref object_id t
  step t (removes object_id) = (remove_ref object_id t).1

  unfoldable pub run : OwnershipTable Bytes → List Call → OwnershipTable Bytes
  unfolding step
  run t [] = t
  run t (c ∷ cs) = run (step t c) cs
