-- ===== src/Examples/Counter.antt =====
-- The class `Counter` of examples/05_parameter_server.py, as an actor (python/nano_ray/actor.py) on a
-- local runtime. An instance is the number `n`.
use nano_ray.Prelude.{ℕ, zero, suc, ◌+◌, ◌≡◌, refl, List, [], ◌∷◌, some}
use nano_ray.Values.{Value, obj, actor_state, Items, nil, Fields, end, Func}
use nano_ray.Dag.{resolve_args, resolve_items, resolve_fields}
use nano_ray.Worker.{Outcome, returned, raised, Platform}
use nano_ray.Driver.{Runtime}
use nano_ray.Driver.Meaning.{AllDenote}
use nano_ray.Driver.Soundness.{Sound}
use nano_ray.Actor.{Classes, run_func, ActorHandle, create}
use nano_ray.Actor.Meaning.{MethodCall}
use nano_ray.Driver.Submitted.{Pickles}
use nano_ray.Actor.Meaning.{left_by}
use nano_ray.Actor.Calls.{call_all, Returns, no_call, one_call, actor-AllDenote}

-- `__init__`, which takes no argument.
unfoldable pub counter_init : Items → Fields → Outcome Value
counter_init nil end = returned (obj 0)
counter_init _ _ = raised "TypeError"

-- `increment`: the changed instance, and what it returns.
unfoldable pub increment : Value → Items → Fields → Outcome (Value × Value)
increment (obj n) nil end = returned (obj (n + 1), obj (n + 1))
increment _ _ _ = raised "TypeError"

abbrev pub counter : Classes
counter = record {
  function = λ f args kwargs. raised "no function";
  construct = λ cls. counter_init;
  method = λ m. increment;
}

-- `counter.increment.remote()`
abbrev pub increment_call : MethodCall
increment_call = record { method_name = 0; args = nil; kwargs = end }

-- `[counter.increment.remote() for _ in range(k)]`
unfoldable pub increments : ℕ → List MethodCall
increments zero = []
increments (suc k) = increment_call ∷ increments k

-- `n + 1, ..., n + k`
unfoldable pub counted : ℕ → ℕ → List Value
counted n zero = []
counted n (suc k) = obj (n + 1) ∷ counted (n + 1) k

module _ (p : Platform) where
  -- What the counter's tasks leave can be pickled.
  abbrev pub AllPickle : Type 0
  AllPickle =
      (n : ℕ)
      → Pickles p (obj n)
        × Pickles p (actor_state (obj n))
        × Pickles p (left_by p counter (obj n) (obj n))

  increments-Returns :
      AllPickle → (n k : ℕ) → Returns p counter (obj n) (increments k) (counted n k)
  unfolding increments counted increment resolve_args resolve_items resolve_fields
  increments-Returns pickle n zero = no_call
  increments-Returns pickle n (suc k) =
      one_call refl refl (pickle (n + 1)).2 (pickle (n + 1)).0 (increments-Returns pickle (n + 1) k)

  -- A counter is created in a sound runtime, and `increment` called on it any number of times: where
  -- its numbers can be pickled, the references mean 1, 2, 3 and so on, in the order of the calls.
  pub counter-AllDenote :
      (k : ℕ) (refs : List ℕ) (handle handle' : ActorHandle) (r r₁ r' : Runtime p)
      → ((f : Func) (a : Items) (kw : Fields) → p.call f a kw ≡ run_func counter f a kw)
      → AllPickle
      → Sound p r
      → create p 0 nil end r ≡ some (handle, r₁)
      → call_all p (increments k) handle r₁ ≡ some (refs, handle', r')
      → AllDenote p r'.ownership refs (counted 0 k)
  unfolding counter_init resolve_args resolve_items resolve_fields
  counter-AllDenote k refs handle handle' r r₁ r' calls pickle sound made called =
      actor-AllDenote p counter 0 nil end (obj 0) (increments k) refs (counted 0 k) handle handle' r
        r₁ r' calls sound refl refl (pickle 0).1 (increments-Returns pickle 0 k) made called
