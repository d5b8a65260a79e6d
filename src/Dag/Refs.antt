-- ===== src/Dag/Refs.antt =====
-- The references in a value as a plain list, against the accumulating loop of
-- python/nano_ray/dag.py.
use nano_ray.Prelude.{ℕ, ◌≡◌, refl, sym, ◌∙◌, ap, List, [], ◌∷◌, ◌++◌, append-nil, append_assoc}
use nano_ray.Values.{
  Value, py_none, obj, object_ref, list, tuple, dict, task_error, actor_state, Items, nil, cons,
  Fields, end, field,
}
use nano_ray.Dag.{collect_item, collect_refs, collect_values, extract_dependencies}

unfoldable mutual
  pub refs : Value → List ℕ
  refs py_none = []
  refs (obj n) = []
  refs (object_ref o) = o ∷ []
  refs (list xs) = refs_items xs
  refs (tuple xs) = refs_items xs
  refs (dict fs) = refs_fields fs
  refs (task_error t e) = []
  refs (actor_state v) = []

  pub refs_items : Items → List ℕ
  refs_items nil = []
  refs_items (cons x xs) = refs x ++ refs_items xs

  pub refs_fields : Fields → List ℕ
  refs_fields end = []
  refs_fields (field k v fs) = refs v ++ refs_fields fs

mutual
  unfolding refs collect_item

  collect_item-refs : (v : Value) (acc : List ℕ) → collect_item v acc ≡ acc ++ refs v
  collect_item-refs py_none acc = sym (append-nil acc)
  collect_item-refs (obj n) acc = sym (append-nil acc)
  collect_item-refs (object_ref o) acc = refl
  collect_item-refs (list xs) acc = collect_refs-refs xs acc
  collect_item-refs (tuple xs) acc = collect_refs-refs xs acc
  collect_item-refs (dict fs) acc = collect_values-refs fs acc
  collect_item-refs (task_error t e) acc = sym (append-nil acc)
  collect_item-refs (actor_state v) acc = sym (append-nil acc)

  collect_refs-refs : (xs : Items) (acc : List ℕ) → collect_refs xs acc ≡ acc ++ refs_items xs
  collect_refs-refs nil acc = sym (append-nil acc)
  collect_refs-refs (cons x xs) acc =
      collect_refs-refs xs (collect_item x acc)
      ∙ ap (λ l. l ++ refs_items xs) (collect_item-refs x acc)
      ∙ append_assoc acc (refs x) (refs_items xs)

  collect_values-refs : (fs : Fields) (acc : List ℕ) → collect_values fs acc ≡ acc ++ refs_fields fs
  collect_values-refs end acc = sym (append-nil acc)
  collect_values-refs (field k v fs) acc =
      collect_values-refs fs (collect_item v acc)
      ∙ ap (λ l. l ++ refs_fields fs) (collect_item-refs v acc)
      ∙ append_assoc acc (refs v) (refs_fields fs)

-- The dependencies of a task are the references in its positional arguments, then those in its
-- keyword arguments.
pub extract_dependencies-refs :
    (args : Items) (kwargs : Fields)
    → extract_dependencies args kwargs ≡ refs_items args ++ refs_fields kwargs
unfolding extract_dependencies
extract_dependencies-refs args kwargs =
    collect_values-refs kwargs (collect_refs args [])
    ∙ ap (λ l. l ++ refs_fields kwargs) (collect_refs-refs args [])
