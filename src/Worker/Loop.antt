-- ===== src/Worker/Loop.antt =====
-- What a worker process reports: `_worker_loop` of python/nano_ray/driver.py.
use nano_ray.Prelude.{ℕ, ◌≡◌, refl, ap, map, ◌++◌, List, [], ◌∷◌, Option, some, inl, inr}
use nano_ray.Values.{Value, Items, Fields, Func}
use nano_ray.Worker.{
  Outcome, returned, raised, Platform, Message, and_then, execute, work, worker_loop, stored_value,
  shown, outcome, Outcome-cases,
}

module _ (p : Platform) where
  stored_value-shown :
      (t : ℕ) (c : Outcome Value) → stored_value p t (and_then c p.dumps_value) ≡ shown p t c
  unfolding stored_value shown
  stored_value-shown t (raised e) = refl
  stored_value-shown t (returned v) = elim (Outcome-cases (p.dumps_value v)) [
    | inl (b, e) ↦ rw (e, shown) (p.loads-dumps_value v b e)
    | inr (m, e) ↦ rw (e, shown)
  ]

  -- A task that is pickled, run by a worker, reported and stored ends with its function's value,
  -- and with an error if the function raises or its value cannot be pickled.
  pub stored_value-execute :
      (t : ℕ) (f : Func) (args : Items) (kwargs : Fields)
      → stored_value p t (execute p (p.dumps_task f args kwargs)) ≡ outcome p t f args kwargs
  unfolding execute outcome
  stored_value-execute t f args kwargs =
      rw (p.loads-dumps_task f args kwargs) (stored_value-shown t (p.call f args kwargs))

  -- A worker reports each task that comes before the others in its queue, in order and under its
  -- ids.
  pub worker_loop-append :
      (msgs : List (Message p)) (rest : List (Option (Message p)))
      → worker_loop p (map some msgs ++ rest) ≡ map (work p) msgs ++ worker_loop p rest
  unfolding worker_loop
  worker_loop-append [] rest = refl
  worker_loop-append (m ∷ msgs) rest = ap (◌∷◌ (work p m)) (worker_loop-append msgs rest)
