-- ===== src/Api.antt =====
-- python/nano_ray/api.py: the module's functions over its global `_runtime`, in local mode. An
-- `ObjectRef` is its object id. `wait_for` and `limit` are the `wait` and the `limit` of Driver.Recovery: what the other
-- threads do while the caller waits, and the nested calls that Python allows.
pub mod Wait
pub mod Get
pub mod ClusterMode
use nano_ray.Prelude.{
  ℕ, ◌+◌, List, [], ◌∷◌, ◌++◌, Option, none, some, Bool, true, false, leb, if◌then◌else◌, length,
}
use nano_ray.Answers.{Answer, done, failed, not_initialized, already_initialized, ◌>>=◌, or_blocked}
use nano_ray.Values.{Value, Items, Fields, Func}
use nano_ray.Worker.{Platform}
use nano_ray.Driver
use nano_ray.Driver.{Runtime}
use nano_ray.Driver.Recovery.{Wait as Waiting, reconstruct_object, get_object}

module _ (p : Platform) where
  abbrev pub Global : Type 0
  Global = Option (Runtime p)

  unfoldable pub init : ℕ → Global → Answer Global
  init num_workers none = done (some (Driver.start p (Driver.init p num_workers)))
  init num_workers (some r) = failed already_initialized

  -- The global is cleared.
  unfoldable pub shutdown : Global → Global
  shutdown none = none
  shutdown (some r) = none

  -- `RemoteFunction.remote`
  unfoldable pub remote : Func → Items → Fields → Global → Answer (ℕ × Global)
  remote func args kwargs none = failed not_initialized
  remote func args kwargs (some r) = do
    (object_id, r') ← or_blocked (Driver.submit_task p func args kwargs r)
    done (object_id, some r')

  unfoldable pub evict : ℕ → Global → Answer (Bool × Global)
  evict ref none = failed not_initialized
  evict ref (some r) = let (existed, r') = Driver.evict_object p ref r in done (existed, some r')

  module _ (wait_for : Waiting p) (limit : ℕ) where
    -- `get` for one reference.
    unfoldable pub get : ℕ → Option ℕ → Global → Answer (Value × Global)
    get ref timeout none = failed not_initialized
    get ref timeout (some r) = do
      (value, r') ← get_object p wait_for limit ref timeout r
      done (value, some r')

    -- The list comprehension of `get`: one reference after the other, each with the whole timeout.
    unfoldable pub get_all : List ℕ → Option ℕ → Runtime p → Answer (List Value × Runtime p)
    get_all [] timeout r = done ([], r)
    get_all (ref ∷ refs) timeout r = do
      (value, r₁) ← get_object p wait_for limit ref timeout r
      (values, r₂) ← get_all refs timeout r₁
      done (value ∷ values, r₂)

    -- `get` for a list.
    unfoldable pub get_list : List ℕ → Option ℕ → Global → Answer (List Value × Global)
    unfolding get_all
    get_list refs timeout none = failed not_initialized
    get_list refs timeout (some r) = do
      (values, r') ← get_all refs timeout r
      done (values, some r')

    unfoldable pub reconstruct : ℕ → Global → Answer (Value × Global)
    reconstruct ref none = failed not_initialized
    reconstruct ref (some r) = do
      r₁ ← reconstruct_object p wait_for limit ref r
      (value, r₂) ← get_object p wait_for limit ref none r₁
      done (value, some r₂)

-- One pass of `wait` over the references that remain: those that `contains` finds, and the others.
unfoldable pub pass : (ℕ → Bool) → List ℕ → List ℕ × List ℕ
pass contains [] = ([], [])
pass contains (ref ∷ refs) =
    let (found, rest) = pass contains refs in
    if contains ref then (ref ∷ found, rest) else (found, ref ∷ rest)

-- The loop of `wait`. Each pass sees the store as it is then; the passes end with the deadline. The
-- loop tests `len(ready) < num_returns` before every pass and after it.
unfoldable pub wait_loop : List (ℕ → Bool) → ℕ → List ℕ → List ℕ → List ℕ × List ℕ
unfolding pass
wait_loop [] num_returns ready remaining = (ready, remaining)
wait_loop (contains ∷ passes) num_returns ready remaining =
    let (found, rest) = pass contains remaining in
    let later = wait_loop passes num_returns (ready ++ found) rest in
    if leb num_returns (length ready) then (ready, remaining) else later

unfoldable pub wait : List (ℕ → Bool) → List ℕ → ℕ → List ℕ × List ℕ
unfolding wait_loop
wait passes refs num_returns = wait_loop passes num_returns [] refs
