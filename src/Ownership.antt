-- ===== src/Ownership.antt =====
-- python/nano_ray/_fallback/ownership.py: the class `OwnershipTable`. Each method holds the lock
-- and is one step on the state. `Bytes` is the type of pickled data, which the table only stores.
pub mod Calls
pub mod Links
pub mod Lookup
pub mod RefCount
use Prim.Native.String.{String}
use nano_ray.Prelude.{ℕ, List, [], Option, none, some, Bool, false, get_or_else}
use nano_ray.Prelude.Dict.{Dict, lookup, insert, modify, get_field}
use nano_ray.Prelude.Int.{ℤ, pos, ◌+ℤ◌, ◌-ℤ◌, is_nonpos}

pub data TaskStatus : Type 0 where
  waiting_for_dependencies ready running finished failed : TaskStatus

-- An entry of `_tasks`.
pub record TaskEntry (Bytes : Type 0) : Type 0 where
  pub owner : ℕ
  pub status : TaskStatus
  pub result_id : ℕ
  pub function_desc : String
  pub serialized_args : Bytes
  pub dependencies : List ℕ
  pub error : Option String

-- An entry of `_objects`. Nothing ever sets its `location`.
pub record ObjectEntry : Type 0 where
  pub owner : ℕ
  pub ref_count : ℤ
  pub producer_task : ℕ
  pub location : Option ℕ

pub record OwnershipTable (Bytes : Type 0) : Type 0 where
  pub tasks : Dict (TaskEntry Bytes)
  pub objects : Dict ObjectEntry

module _ {Bytes : Type 0} where
  unfoldable pub init : OwnershipTable Bytes
  init = record { tasks = []; objects = [] }

  abbrev pub new_task : ℕ → ℕ → String → Bytes → Option (List ℕ) → TaskEntry Bytes
  new_task object_id owner_id function_desc serialized_args dependencies = record {
    owner = owner_id;
    status = ready;
    result_id = object_id;
    function_desc = function_desc;
    serialized_args = serialized_args;
    dependencies = get_or_else dependencies [];
    error = none;
  }

  unfoldable pub register_task :
      ℕ → ℕ → ℕ → String → Bytes → Option (List ℕ) → OwnershipTable Bytes → OwnershipTable Bytes
  register_task task_id object_id owner_id function_desc serialized_args dependencies t = record {
    tasks =
        insert task_id (new_task object_id owner_id function_desc serialized_args dependencies)
          t.tasks;
    objects =
        insert object_id
          (record { owner = owner_id; ref_count = pos 1; producer_task = task_id; location = none })
          t.objects;
  }

  unfoldable pub task_finished : ℕ → OwnershipTable Bytes → OwnershipTable Bytes
  task_finished task_id t = record t {
    tasks = modify (λ entry. record entry { status = finished }) task_id t.tasks;
  }

  unfoldable pub task_failed : ℕ → String → OwnershipTable Bytes → OwnershipTable Bytes
  task_failed task_id message t = record t {
    tasks =
        modify (λ entry. record entry { status = failed; error = some message }) task_id t.tasks;
  }

  unfoldable pub get_task_status : ℕ → OwnershipTable Bytes → Option TaskStatus
  get_task_status task_id t = get_field (λ entry. entry.status) task_id t.tasks

  unfoldable pub get_result_id : ℕ → OwnershipTable Bytes → Option ℕ
  get_result_id task_id t = get_field (λ entry. entry.result_id) task_id t.tasks

  unfoldable pub get_producer_task : ℕ → OwnershipTable Bytes → Option ℕ
  get_producer_task object_id t = get_field (λ entry. entry.producer_task) object_id t.objects

  -- `(entry["serialized_args"], list(entry["dependencies"]))`
  abbrev pub lineage_of : TaskEntry Bytes → Bytes × List ℕ
  lineage_of entry = (entry.serialized_args, entry.dependencies)

  unfoldable pub get_task_lineage : ℕ → OwnershipTable Bytes → Option (Bytes × List ℕ)
  get_task_lineage task_id t = get_field lineage_of task_id t.tasks

  unfoldable pub add_ref : ℕ → OwnershipTable Bytes → OwnershipTable Bytes
  add_ref object_id t = record t {
    objects =
        modify (λ entry. record entry { ref_count = entry.ref_count +ℤ pos 1 }) object_id t.objects;
  }

  -- Whether the object can be collected, and the table.
  unfoldable pub remove_ref : ℕ → OwnershipTable Bytes → Bool × OwnershipTable Bytes
  remove_ref object_id t =
      let objects' =
        modify (λ entry. record entry { ref_count = entry.ref_count -ℤ pos 1 }) object_id
          t.objects in
      (
        elim (lookup object_id objects') [ none ↦ false | some entry ↦ is_nonpos entry.ref_count ],
        record t { objects = objects' },
      )
