-- ===== src/Tests/TableTests.antt =====
-- python/nano_ray/_fallback/ownership.py on one task and one object.
use nano_ray.Prelude.{
  arith, ℕ, ◌+◌, ◌≡◌, refl, List, [], ◌∷◌, Option, none, some, Bool, true, false, leb, get_or_else,
  ◌==◌, if◌then◌else◌,
}
use nano_ray.Ownership.{OwnershipTable, init, register_task, get_result_id, remove_ref}
use nano_ray.Ownership.Calls.{finishes, adds, removes, step}
use nano_ray.Ownership.RefCount.{
  Event, calls, registers, on_events, calls_of, added, removed, remove_ref-collects,
}
use nano_ray.Ownership.Links.{IsLinked, step-IsLinked, init-IsLinked}

abbrev empty : OwnershipTable ℕ
empty = init

-- Task 0 produces object 1 from the pickle 77.
abbrev one_task : OwnershipTable ℕ
one_task = register_task 0 1 42 "f" 77 none empty

-- Object 3 is registered meanwhile.
abbrev events : List (Event ℕ)
events = calls (finishes 0) ∷ calls (adds 1) ∷ registers 2 3 42 "g" 78 none ∷ calls (removes 1) ∷ []

remove_ref-collects_example :
    (remove_ref 1 (on_events one_task events)).0
    ≡ leb (1 + added 1 (calls_of events)) (removed 1 (calls_of events) + 1)
remove_ref-collects_example =
    remove_ref-collects 0 1 42 "f" 77 none empty events ((λ e. absurd (ground arith)), tt)

none_yet : get_result_id 0 empty ≡ none
unfolding init get_result_id nano_ray.Prelude.Dict.get_field
none_yet = refl

step-IsLinked_example : IsLinked (step empty (finishes 0))
step-IsLinked_example = step-IsLinked empty (finishes 0) (init-IsLinked ℕ)
