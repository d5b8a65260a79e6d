-- ===== src/Values.antt =====
-- The Python values that pass through the runtime, as far as the runtime looks into them:
-- python/nano_ray/dag.py walks lists, tuples and dicts for `ObjectRef`s (python/nano_ray/api.py),
-- python/nano_ray/driver.py tests for `_TaskError`, and python/nano_ray/actor.py for `_ActorState`.
-- Any other object is an opaque `obj`.
use Prim.Native.String.{String}
use nano_ray.Prelude.{ℕ}

mutual
  pub data Value : Type 0 where
    -- Python's `None`
    py_none : Value
    obj : ℕ → Value
    object_ref : (object_id : ℕ) → Value
    list : Items → Value
    tuple : Items → Value
    dict : Fields → Value
    task_error : (task_id : ℕ) (error_msg : String) → Value
    actor_state : (instance : Value) → Value

  -- The elements of a list or a tuple; also a task's positional arguments.
  pub data Items : Type 0 where
    nil : Items
    cons : Value → Items → Items

  -- The entries of a dict, in order; also a task's keyword arguments.
  pub data Fields : Type 0 where
    end : Fields
    field : (key : ℕ) → Value → Fields → Fields

-- A callable that a task runs: a user's function, or one of the closures of actor.py.
pub data Func : Type 0 where
  user : ℕ → Func
  init_actor : (actor_cls : ℕ) → Func
  actor_method_task : (method_name : ℕ) → Func
  extract_return_value : Func

-- The dict `task_spec` that the driver hands to the scheduler.
pub record TaskSpec : Type 0 where
  pub task_id : ℕ
  pub object_id : ℕ
  pub func : Func
  pub args : Items
  pub kwargs : Fields
