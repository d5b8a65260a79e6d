-- ===== src/Worker.antt =====
-- The worker process: `_worker_loop` of python/nano_ray/driver.py, which
-- `_worker_process_loop` of python/nano_ray/node.py repeats; and `_TaskError`, with which the
-- driver stores a failure.
pub mod Loop
use Prim.Native.String.{String}
use nano_ray.Prelude.{ℕ, ◌≡◌, refl, List, [], ◌∷◌, Option, none, some, ◌⊎◌, inl, inr}
use nano_ray.Values.{Value, task_error, Items, Fields, Func}

-- A call of Python code: it returns, or raises and leaves a traceback.
pub data Outcome (A : Type 0) : Type 0 where
  returned : A → Outcome A
  raised : (traceback : String) → Outcome A

-- What the runtime does not implement: pickling (cloudpickle), the functions that tasks run, the
-- process id, and a function's name. Functions are taken to be deterministic, the arguments of a
-- task to be picklable; a result may fail to pickle.
pub record Platform : Type 1 where
  pub Bytes : Type 0
  pub dumps_task : Func → Items → Fields → Bytes
  pub loads_task : Bytes → Outcome (Func × Items × Fields)
  pub dumps_value : Value → Outcome Bytes
  pub loads_value : Bytes → Value
  pub call : Func → Items → Fields → Outcome Value
  pub getpid : ℕ
  pub qualname : Func → String
  pub loads-dumps_task :
      (f : Func) (args : Items) (kwargs : Fields)
      → loads_task (dumps_task f args kwargs) ≡ returned (f, args, kwargs)
  pub loads-dumps_value : (v : Value) (b : Bytes) → dumps_value v ≡ returned b → loads_value b ≡ v

pub Outcome-cases :
    {A : Type 0} (o : Outcome A) → ((a : A) × (o ≡ returned a)) ⊎ ((e : String) × (o ≡ raised e))
Outcome-cases (returned a) = inl (a, refl)
Outcome-cases (raised e) = inr (e, refl)

abbrev pub and_then : {A B : Type 0} → Outcome A → (A → Outcome B) → Outcome B
and_then (returned a) f = f a
and_then (raised e) f = raised e

module _ (p : Platform) where
  open p use {Bytes}

  -- An entry of the task queue.
  pub record Message : Type 0 where
    pub task_id : ℕ
    pub object_id : ℕ
    pub payload : Bytes

  -- An entry of the result queue: `(task_id, object_id, success, data)`.
  pub record Report : Type 0 where
    pub task_id : ℕ
    pub object_id : ℕ
    pub result : Outcome Bytes

  -- The body of the `try`.
  unfoldable pub execute : Bytes → Outcome Bytes
  execute payload =
      and_then (p.loads_task payload)
        λ (func, args, kwargs). and_then (p.call func args kwargs) p.dumps_value

  unfoldable pub work : Message → Report
  unfolding execute
  work msg = record {
    task_id = msg.task_id;
    object_id = msg.object_id;
    result = execute msg.payload;
  }

  -- The loop, over what the queue gives; `None` is the shutdown sentinel.
  unfoldable pub worker_loop : List (Option Message) → List Report
  unfolding work
  worker_loop [] = []
  worker_loop (none ∷ msgs) = []
  worker_loop (some msg ∷ msgs) = work msg ∷ worker_loop msgs

  -- The value that the driver stores for a report.
  unfoldable pub stored_value : ℕ → Outcome Bytes → Value
  stored_value task_id (returned b) = p.loads_value b
  stored_value task_id (raised e) = task_error task_id e

  -- What a task's function gives, as the store shows it.
  unfoldable pub shown : ℕ → Outcome Value → Value
  shown task_id (raised e) = task_error task_id e
  shown task_id (returned v) = elim (p.dumps_value v) [
    | raised e ↦ task_error task_id e
    | returned b ↦ v
  ]

  unfoldable pub outcome : ℕ → Func → Items → Fields → Value
  unfolding shown
  outcome task_id func args kwargs = shown task_id (p.call func args kwargs)
