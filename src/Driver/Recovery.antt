-- ===== src/Driver/Recovery.antt =====
-- `get_object` and `reconstruct_object` of python/nano_ray/driver.py. The thread that calls them
-- waits for an object; what the worker processes and the collector thread do meanwhile is the
-- parameter `wait`: the runtime at the moment the object is there, or `none` if that never comes, or
-- not within the timeout. `limit` is the number of nested calls that Python still allows.
use nano_ray.Prelude.{
  arith, ap, ◌≡◌, ℕ, zero, suc, ◌++◌, List, [], ◌∷◌, Option, none, some, true, false,
}
use nano_ray.Answers.{
  no_lineage, task_raised, timed_out, recursion_error, other_error, Answer, done, failed, blocked,
  ◌>>=◌, done-injective, or_blocked, or_failed,
}
use nano_ray.Values.{Value, task_error}
use nano_ray.ObjectStore
use nano_ray.Ownership.{get_producer_task, get_task_lineage}
use nano_ray.Dag.{resolve_args}
use nano_ray.Worker.{Outcome, returned, raised, Platform}
use nano_ray.Driver.{Runtime}

abbrev pub unpickled : {A : Type 0} → Outcome A → Answer A
unpickled (returned a) = done a
unpickled (raised e) = failed (other_error e)

pub unpickled-eq-done : {A : Type 0} {a : A} (m : Outcome A) → unpickled m ≡ done a → m ≡ returned a
unpickled-eq-done (returned b) h = ap returned (done-injective b _ h)
unpickled-eq-done (raised e) h = absurd (ground arith)

-- `if isinstance(value, _TaskError): raise`
abbrev pub checked : Value → Answer Value
checked (task_error task_id error_msg) = failed (task_raised task_id error_msg)
checked value = done value

pub checked-eq-done : (v x : Value) → checked v ≡ done x → v ≡ x
checked-eq-done v x h = ground arith

module _ (p : Platform) where
  -- The timeout, in milliseconds, and the object.
  abbrev pub Wait : Type 0
  Wait = Option ℕ → ℕ → Runtime p → Option (Runtime p)

  -- `reconstruct_object` after the loop over the dependencies, up to the wait: the lineage is
  -- unpickled, resolved and sent once more.
  unfoldable pub send_again : (task_id object_id : ℕ) → p.Bytes → Runtime p → Answer (Runtime p)
  send_again task_id object_id serialized_args r = do
    (func, args, kwargs) ← unpickled (p.loads_task serialized_args)
    (resolved_args, resolved_kwargs) ←
        or_blocked (resolve_args (λ o. ObjectStore.get_now o r.object_store) args kwargs)
    let payload = p.dumps_task func resolved_args resolved_kwargs
    done (record r {
      task_queue =
          r.task_queue
          ++ some (record { task_id = task_id; object_id = object_id; payload = payload }) ∷ [];
    })

  -- The loop over the dependencies, each rebuilt by `rebuild` if it is missing.
  unfoldable pub for_missing :
      (ℕ → Runtime p → Answer (Runtime p)) → List ℕ → Runtime p → Answer (Runtime p)
  for_missing rebuild [] r = done r
  for_missing rebuild (dep_id ∷ dep_ids) r =
      elim (ObjectStore.contains dep_id r.object_store) [ true ↦ done r | false ↦ rebuild dep_id r ]
      >>= for_missing rebuild dep_ids

  module _ (wait : Wait) where
    unfoldable pub reconstruct_object : (limit : ℕ) → ℕ → Runtime p → Answer (Runtime p)
    unfolding for_missing send_again
    reconstruct_object zero object_id r = failed recursion_error
    reconstruct_object (suc limit) object_id r =
        elim (ObjectStore.contains object_id r.object_store) [
          | true ↦ done r
          | false ↦ do
            task_id ← or_failed (no_lineage object_id) (get_producer_task object_id r.ownership)
            (serialized_args, dep_ids) ←
                or_failed (no_lineage object_id) (get_task_lineage task_id r.ownership)
            r₁ ← for_missing (reconstruct_object limit) dep_ids r
            r₂ ← send_again task_id object_id serialized_args r₁
            or_blocked (wait none object_id r₂)
        ]

    -- What a call makes of an object that did not come.
    abbrev pub late : Option ℕ → ℕ → Answer (Runtime p)
    late none object_id = blocked
    late (some timeout) object_id = failed (timed_out object_id)

    -- `object_store.get_or_wait`: the runtime in which the object is there.
    unfoldable pub await : Option ℕ → ℕ → Runtime p → Answer (Runtime p)
    await timeout object_id r = elim (ObjectStore.contains object_id r.object_store) [
      | true ↦ done r
      | false ↦ elim (wait timeout object_id r) [
        | none ↦ late timeout object_id
        | some r' ↦ done r'
      ]
    ]

    -- Where the object is missing and has a producer, it is rebuilt.
    unfoldable pub auto_reconstruct : (limit : ℕ) → ℕ → Runtime p → Answer (Runtime p)
    unfolding reconstruct_object
    auto_reconstruct limit object_id r = elim (ObjectStore.contains object_id r.object_store) [
      | true ↦ done r
      | false ↦ elim (get_producer_task object_id r.ownership) [
        | none ↦ done r
        | some producer ↦ reconstruct_object limit object_id r
      ]
    ]

    unfoldable pub get_object : (limit : ℕ) → ℕ → Option ℕ → Runtime p → Answer (Value × Runtime p)
    unfolding auto_reconstruct await
    get_object limit object_id timeout r = do
      r₁ ← auto_reconstruct limit object_id r
      r₂ ← await timeout object_id r₁
      value ← or_blocked (ObjectStore.get_now object_id r₂.object_store)
      value' ← checked value
      done (value', r₂)
