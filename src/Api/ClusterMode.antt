-- ===== src/Api/ClusterMode.antt =====
-- python/nano_ray/api.py in cluster mode: the global `_runtime` is a client of a cluster
-- (python/nano_ray/remote_runtime.py). `wait_for` is what the cluster does between a request for an
-- object and the head's answer.
pub mod Values
use Prim.Native.String.{String}
use nano_ray.Prelude.{ℕ, List, [], ◌∷◌, Option, none, some, Bool}
use nano_ray.Answers.{
  Answer, done, failed, not_initialized, already_initialized, other_error, ◌>>=◌,
}
use nano_ray.Values.{Value, Items, Fields, Func}
use nano_ray.Worker.{Platform}
use nano_ray.Dashboard.{Clock}
use nano_ray.Client
use nano_ray.Client.{RemoteRuntime}
use nano_ray.Cluster.System.{Cluster}

abbrev pub Global : Type 0
Global = Option RemoteRuntime

-- `init(address=...)`, where the head accepts the connection.
unfoldable pub init : String → ℕ → Global → Answer Global
init host port none = done (some (Client.start (Client.init host port)))
init host port (some r) = failed already_initialized

unfoldable pub shutdown : Global → Global
shutdown none = none
shutdown (some r) = none

-- A client has no `evict_object` and no `reconstruct_object`.
unfoldable pub evict : ℕ → Global → Answer Bool
evict ref none = failed not_initialized
evict ref (some r) = failed (other_error "AttributeError")

unfoldable pub reconstruct : ℕ → Global → Answer Value
reconstruct ref none = failed not_initialized
reconstruct ref (some r) = failed (other_error "AttributeError")

module _ (p : Platform) (c : Clock) where
  module _ (wait_for : ℕ → Cluster p c → Cluster p c) (now after : c.Time) (conn : ℕ) where
    -- `RemoteFunction.remote`
    unfoldable pub remote : Func → Items → Fields → Global → Cluster p c → Answer (ℕ × Cluster p c)
    remote func args kwargs none s = failed not_initialized
    remote func args kwargs (some r) s = do
      (object_id, h) ← Client.submit_task p c now after conn func args kwargs r s.head
      done (object_id, record s { head = h })

    -- `_runtime.get_object`, when the head answers.
    abbrev pub fetch : ℕ → Option ℕ → RemoteRuntime → Cluster p c → Answer (Value × Cluster p c)
    fetch ref timeout r s = do
      (value, h) ← Client.get_object p c now after conn ref timeout r (wait_for ref s).head
      done (value, record (wait_for ref s) { head = h })

    -- `get` for one reference.
    unfoldable pub get : ℕ → Option ℕ → Global → Cluster p c → Answer (Value × Cluster p c)
    get ref timeout none s = failed not_initialized
    get ref timeout (some r) s = fetch ref timeout r s

    -- The list comprehension of `get`.
    unfoldable pub get_all :
        List ℕ → Option ℕ → RemoteRuntime → Cluster p c → Answer (List Value × Cluster p c)
    get_all [] timeout r s = done ([], s)
    get_all (ref ∷ refs) timeout r s = do
      (value, s₁) ← fetch ref timeout r s
      (values, s₂) ← get_all refs timeout r s₁
      done (value ∷ values, s₂)

    -- `get` for a list.
    unfoldable pub get_list :
        List ℕ → Option ℕ → Global → Cluster p c → Answer (List Value × Cluster p c)
    unfolding get_all
    get_list refs timeout none s = failed not_initialized
    get_list refs timeout (some r) s = get_all refs timeout r s
