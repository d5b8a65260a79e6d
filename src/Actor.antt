-- ===== src/Actor.antt =====
-- python/nano_ray/actor.py: an actor is a chain of tasks, each of which takes the state that the one
-- before it left. The users' classes are a parameter: their constructors, and their methods, which
-- give the changed instance along with what they return.
pub mod Meaning
pub mod Calls
pub mod Failures
use nano_ray.Prelude.{ℕ, ◌+◌, List, [], ◌∷◌, Option, none, some}
use nano_ray.Prelude.Maybe.{◌>>=◌}
use nano_ray.Values.{
  Value, object_ref, tuple, list, actor_state, Items, nil, cons, Fields, end, Func, user,
  init_actor, actor_method_task, extract_return_value,
}
use nano_ray.Worker.{Outcome, returned, raised, Platform, and_then}
use nano_ray.Driver
use nano_ray.Driver.{Runtime}

pub record Classes : Type 0 where
  pub function : ℕ → Items → Fields → Outcome Value
  pub construct : (cls : ℕ) → Items → Fields → Outcome Value
  pub method : (method_name : ℕ) → Value → Items → Fields → Outcome (Value × Value)

-- The instance in what the task before left: an `_ActorState`, or a sequence that begins with one.
unfoldable pub instance_in : Value → Outcome Value
instance_in (actor_state instance₁) = returned instance₁
instance_in (tuple (cons (actor_state instance₁) rest)) = returned instance₁
instance_in (list (cons (actor_state instance₁) rest)) = returned instance₁
instance_in _ = raised "not an actor state"

-- `state_and_value[1]`
unfoldable pub second_of : Value → Outcome Value
second_of (tuple (cons s (cons v rest))) = returned v
second_of (list (cons s (cons v rest))) = returned v
second_of _ = raised "no second element"

-- `_ActorState.call_method`, on the instance.
unfoldable pub call_method : Classes → ℕ → Value → Items → Fields → Outcome Value
call_method u method_name instance₁ args kwargs =
    and_then (u.method method_name instance₁ args kwargs)
      λ (changed, result). returned (tuple (cons (actor_state changed) (cons result nil)))

-- What the functions of actor tasks do: `_init_actor`, `_actor_method_task` and
-- `_extract_return_value`.
unfoldable pub run_func : Classes → Func → Items → Fields → Outcome Value
unfolding instance_in second_of call_method
run_func u (user n) args kwargs = u.function n args kwargs
run_func u (init_actor cls) args kwargs =
    and_then (u.construct cls args kwargs) λ instance₁. returned (actor_state instance₁)
run_func u (actor_method_task m) nil kwargs = raised "missing argument"
run_func u (actor_method_task m) (cons prev args) kwargs =
    and_then (instance_in prev) λ instance₁. call_method u m instance₁ args kwargs
run_func u extract_return_value (cons v nil) end = second_of v
run_func u extract_return_value _ _ = raised "wrong arguments"

pub record ActorHandle : Type 0 where
  pub cls : ℕ
  pub actor_id : ℕ
  pub last_ref : ℕ

module _ (p : Platform) where
  -- `ActorHandle._create`
  unfoldable pub create : ℕ → Items → Fields → Runtime p → Option (ActorHandle × Runtime p)
  create actor_cls args kwargs r =
      let (actor_id, r₁) = Driver.next_unique_id p r in
      Driver.submit_task p (init_actor actor_cls) args kwargs r₁ >>= λ (object_id, r₂).
      some (record { cls = actor_cls; actor_id = actor_id; last_ref = object_id }, r₂)

  -- `_ActorMethodCaller.remote`: the reference for the user, the handle and the runtime.
  unfoldable pub call_remote :
      ℕ → Items → Fields → ActorHandle → Runtime p → Option (ℕ × ActorHandle × Runtime p)
  call_remote method_name args kwargs handle r =
      Driver.submit_task p (actor_method_task method_name) (cons (object_ref handle.last_ref) args)
        kwargs r
      >>= λ (chain_object_id, r₁).
          Driver.submit_task p extract_return_value (cons (object_ref chain_object_id) nil) end r₁
          >>= λ (user_object_id, r₂).
              some (user_object_id, record handle { last_ref = chain_object_id }, r₂)
