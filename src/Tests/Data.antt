-- ===== src/Tests/Data.antt =====
-- Tasks, arguments and a platform to run python/nano_ray on.
use nano_ray.Dashboard.{Clock}
use nano_ray.Prelude.{◌-◌, ltb, ℕ, ◌+◌, refl, ap, sym}
use nano_ray.Values.{Value, py_none, obj, Items, nil, cons, Fields, end, Func, user, TaskSpec}
use nano_ray.Worker.{Outcome, returned, raised, Platform}

pub data Pickle : Type 0 where
  task : Func → Items → Fields → Pickle
  value : Value → Pickle

abbrev load_task : Pickle → Outcome (Func × Items × Fields)
load_task (task f args kwargs) = returned (f, args, kwargs)
load_task (value v) = raised "not a task"

abbrev load_value : Pickle → Value
load_value (task f args kwargs) = py_none
load_value (value v) = v

abbrev returned_value : Outcome Pickle → Value
returned_value (returned b) = load_value b
returned_value (raised e) = py_none

-- Function `n` adds `n` to its one argument.
abbrev add_to : Func → Items → Fields → Outcome Value
add_to (user n) (cons (obj a) nil) end = returned (obj (a + n))
add_to _ _ _ = raised "TypeError"

abbrev pub toy : Platform
toy = record {
  Bytes = Pickle;
  dumps_task = task;
  loads_task = load_task;
  dumps_value = λ v. returned (value v);
  loads_value = load_value;
  call = add_to;
  getpid = 42;
  qualname = λ f. "f";
  loads-dumps_task = λ f args kwargs. refl;
  loads-dumps_value = λ v b e. ap returned_value (sym e);
}

abbrev pub one_arg : Value → Items
one_arg v = cons v nil

abbrev pub spec_of : ℕ → Value → TaskSpec
spec_of t v = record {
  task_id = t;
  object_id = t + 1;
  func = user 1;
  args = one_arg v;
  kwargs = end;
}

-- A clock that counts milliseconds.
abbrev pub ticks : Clock
ticks = record {
  Time = ℕ;
  Duration = ℕ;
  duration_ms = λ later earlier. later - earlier;
  below = ltb;
  uptime_seconds = λ later earlier. later - earlier;
  round_time = λ t. t;
  round_ms = λ d. d;
}
