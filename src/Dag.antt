-- ===== src/Dag.antt =====
-- python/nano_ray/dag.py: finding the `ObjectRef`s in a task's arguments, and replacing them by
-- values. An `ObjectRef` is its object id. `get_fn` may fail to return: it waits for an object,
-- and `none` stands for a wait that nothing ends.
pub mod Refs
pub mod Resolve
use nano_ray.Prelude.{ℕ, List, [], ◌∷◌, ◌++◌, Option, none, some}
use nano_ray.Prelude.Maybe.{◌>>=◌}
use nano_ray.Values.{
  Value, py_none, obj, object_ref, list, tuple, dict, task_error, actor_state, Items, nil, cons,
  Fields, end, field,
}

-- `_collect_refs` appends to `refs`. One function for each container of its loop.
unfoldable mutual
  pub collect_item : Value → List ℕ → List ℕ
  collect_item py_none refs = refs
  collect_item (obj n) refs = refs
  collect_item (object_ref o) refs = refs ++ o ∷ []
  collect_item (list xs) refs = collect_refs xs refs
  collect_item (tuple xs) refs = collect_refs xs refs
  collect_item (dict fs) refs = collect_values fs refs
  collect_item (task_error t e) refs = refs
  collect_item (actor_state v) refs = refs

  pub collect_refs : Items → List ℕ → List ℕ
  collect_refs nil refs = refs
  collect_refs (cons x xs) refs = collect_refs xs (collect_item x refs)

  pub collect_values : Fields → List ℕ → List ℕ
  collect_values end refs = refs
  collect_values (field k v fs) refs = collect_values fs (collect_item v refs)

unfoldable pub extract_dependencies : Items → Fields → List ℕ
extract_dependencies args kwargs = collect_values kwargs (collect_refs args [])

-- The inner function `_resolve`, with the two comprehensions over its containers.
unfoldable mutual
  pub resolve : (ℕ → Option Value) → Value → Option Value
  resolve get_fn py_none = some py_none
  resolve get_fn (obj n) = some (obj n)
  resolve get_fn (object_ref o) = get_fn o
  resolve get_fn (list xs) = resolve_items get_fn xs >>= λ ys. some (list ys)
  resolve get_fn (tuple xs) = resolve_items get_fn xs >>= λ ys. some (tuple ys)
  resolve get_fn (dict fs) = resolve_fields get_fn fs >>= λ gs. some (dict gs)
  resolve get_fn (task_error t e) = some (task_error t e)
  resolve get_fn (actor_state v) = some (actor_state v)

  pub resolve_items : (ℕ → Option Value) → Items → Option Items
  resolve_items get_fn nil = some nil
  resolve_items get_fn (cons x xs) =
      resolve get_fn x >>= λ y. resolve_items get_fn xs >>= λ ys. some (cons y ys)

  pub resolve_fields : (ℕ → Option Value) → Fields → Option Fields
  resolve_fields get_fn end = some end
  resolve_fields get_fn (field k v fs) =
      resolve get_fn v >>= λ w. resolve_fields get_fn fs >>= λ gs. some (field k w gs)

unfoldable pub resolve_args : (ℕ → Option Value) → Items → Fields → Option (Items × Fields)
resolve_args get_fn args kwargs = do
  resolved_args ← resolve_items get_fn args
  resolved_kwargs ← resolve_fields get_fn kwargs
  some (resolved_args, resolved_kwargs)
