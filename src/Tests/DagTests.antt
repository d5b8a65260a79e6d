-- ===== src/Tests/DagTests.antt =====
-- python/nano_ray/dag.py on a list that holds a reference.
use nano_ray.Prelude.{ℕ, ◌≡◌, refl, [], ◌∷◌, Option, none, some, is_some, ◌==◌, if◌then◌else◌}
use nano_ray.Values.{Value, obj, object_ref, list, Items, nil, cons, Fields, end, field}
use nano_ray.Dag.{extract_dependencies, resolve_args}
use nano_ray.Dag.Resolve.{all_return, is_some-resolve_args}

abbrev args : Items
args = cons (list (cons (object_ref 3) nil)) nil

abbrev kwargs : Fields
kwargs = field 7 (object_ref 5) end

-- Object 5 is a value that holds a reference itself.
abbrev fetched : ℕ → Option Value
fetched o =
    if o == 3 then some (obj 30) else if o == 5 then some (list (cons (object_ref 9) nil)) else none

abbrev resolved_args : Items
resolved_args = cons (list (cons (obj 30) nil)) nil

abbrev resolved_kwargs : Fields
resolved_kwargs = field 7 (list (cons (object_ref 9) nil)) end

both_found : extract_dependencies args kwargs ≡ 3 ∷ 5 ∷ []
unfolding extract_dependencies nano_ray.Dag.collect_values
both_found = refl

both_resolved : resolve_args fetched args kwargs ≡ some (resolved_args, resolved_kwargs)
unfolding resolve_args nano_ray.Dag.resolve_items
both_resolved = refl

is_some-resolve_args_example :
    is_some (resolve_args fetched args kwargs)
    ≡ all_return fetched (extract_dependencies args kwargs)
is_some-resolve_args_example = is_some-resolve_args fetched args kwargs
