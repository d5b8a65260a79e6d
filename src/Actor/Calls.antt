-- ===== src/Actor/Calls.antt =====
-- An actor of python/nano_ray/actor.py from its creation through any number of method calls, on a
-- local runtime.
use nano_ray.Prelude.{ℕ, ◌≡◌, refl, ◌∙◌, subst, List, [], ◌∷◌, Option, some, true, arith, elem}
use nano_ray.Prelude.Maybe.{◌>>=◌, >>=-eq-some}
use mathlib.Core.Option.{some-injective}
use nano_ray.Values.{py_none, Value, actor_state, Items, Fields, init_actor, Func}
use nano_ray.Worker.{returned, Platform}
use nano_ray.Driver
use nano_ray.Driver.{Runtime, next_unique_id}
use nano_ray.Driver.Meaning.{Denotes, Denotes-Extends, AllDenote}
use nano_ray.Driver.Soundness.{Sound}
use nano_ray.Driver.Submitted.{submit_task-returned, Pickles}
use nano_ray.Driver.System.{submits, Steps, here, Steps-trans}
use nano_ray.Driver.Run.{Step-Sound}
use nano_ray.Driver.Results.{Steps-Grows}
use nano_ray.Actor.{Classes, instance_in, run_func, ActorHandle, create, call_remote}
use nano_ray.Actor.Meaning.{MethodCall}
use nano_ray.Actor.Meaning.{
  call_remote-Steps, IsPlain, plain_deps, plain_resolve, left_by, call_remote-Denotes,
}

module _ (p : Platform) where
  -- A user's calls, one after the other: their references, the handle and the runtime.
  unfoldable pub call_all :
      List MethodCall → ActorHandle → Runtime p → Option (List ℕ × ActorHandle × Runtime p)
  call_all [] handle r = some ([], handle, r)
  call_all (m ∷ ms) handle r =
      call_remote p m.method_name m.args m.kwargs handle r >>= λ (ref, handle₁, r₁).
      call_all ms handle₁ r₁ >>= λ (refs, handle₂, r₂). some (ref ∷ refs, handle₂, r₂)

  pub call_all-Steps :
      (ms : List MethodCall) (handle handle' : ActorHandle) (refs : List ℕ) (r r' : Runtime p)
      → call_all ms handle r ≡ some (refs, handle', r')
      → Steps p r r'
  unfolding call_all
  call_all-Steps [] handle handle' refs r r' e =
      subst (λ (x : List ℕ × ActorHandle × Runtime p). Steps p r x.2) (some-injective _ _ e) here
  call_all-Steps (m ∷ ms) handle handle' refs r r' e =
      let ((ref, handle₁, r₁), first, e₁) =
        >>=-eq-some (call_remote p m.method_name m.args m.kwargs handle r) _ e in
      let ((refs₁, handle₂, r₂), rest, e₂) = >>=-eq-some (call_all ms handle₁ r₁) _ e₁ in
      subst (λ (x : List ℕ × ActorHandle × Runtime p). Steps p r x.2) (some-injective _ _ e₂)
        (Steps-trans p (call_remote-Steps p m handle handle₁ ref r r₁ first)
          (call_all-Steps ms handle₁ handle₂ refs₁ r₁ r₂ rest))

module _ (p : Platform) (u : Classes) where
  -- On the instance `i` the methods return the values in turn, and what they leave can be pickled.
  pub data Returns : Value → List MethodCall → List Value → Type 0 where
    no_call : {i : Value} → Returns i [] []
    one_call :
        {i changed result : Value} {m : MethodCall} {ms : List MethodCall} {vs : List Value}
        → IsPlain m
        → u.method m.method_name i m.args m.kwargs ≡ returned (changed, result)
        → Pickles p (left_by p u changed result)
        → Pickles p result
        → Returns changed ms vs
        → Returns i (m ∷ ms) (result ∷ vs)

  call_all-AllDenote :
      (calls : (f : Func) (a : Items) (k : Fields) → p.call f a k ≡ run_func u f a k)
      (ms : List MethodCall) (handle handle' : ActorHandle) (prev i : Value) (refs : List ℕ)
      (vs : List Value) (r r' : Runtime p)
      → Sound p r
      → Denotes p r.ownership handle.last_ref prev
      → instance_in prev ≡ returned i
      → Returns i ms vs
      → call_all p ms handle r ≡ some (refs, handle', r')
      → AllDenote p r'.ownership refs vs
  unfolding call_all instance_in
  call_all-AllDenote calls [] handle handle' prev i refs vs r r' sound before holds no_call e =
      subst (λ (x : List ℕ × ActorHandle × Runtime p). AllDenote p x.2.ownership x.0 [])
        (some-injective _ _ e) tt
  call_all-AllDenote calls (m ∷ ms) handle handle' prev i refs vs r r' sound before holds
        (one_call {changed = changed} {result = result} {vs = vs'} plain does pickles pickles' more)
        e =
      let ((ref, handle₁, r₁), first, e₁) =
        >>=-eq-some (call_remote p m.method_name m.args m.kwargs handle r) _ e in
      let ((refs₁, handle₂, r₂), rest, e₂) = >>=-eq-some (call_all p ms handle₁ r₁) _ e₁ in
      let (sound₁, gives, leaves) =
        call_remote-Denotes p u m handle handle₁ prev i changed result ref r r₁ calls sound plain
          before holds does pickles pickles' first in
      let grows = (Steps-Grows p sound₁ (call_all-Steps p ms handle₁ handle₂ refs₁ r₁ r₂ rest)).1 in
      subst (λ (x : List ℕ × ActorHandle × Runtime p). AllDenote p x.2.ownership x.0 (result ∷ vs'))
        (some-injective _ _ e₂)
        (
          Denotes-Extends p grows gives,
          call_all-AllDenote calls ms handle₁ handle₂ (left_by p u changed result) changed refs₁ vs'
              r₁ r₂ sound₁ leaves refl more rest,
        )

  -- The id of the actor is drawn.
  next_unique_id-Sound : (r : Runtime p) → Sound p r → Sound p (next_unique_id p r).1
  unfolding next_unique_id
  next_unique_id-Sound r h = record {
    stored = h.stored;
    queued = h.queued;
    reported = h.reported;
    recorded = h.recorded;
    ids_used = λ o t e. omega (arith, h.ids_used o t e);
    tasks_used = λ t l e. omega (arith, h.tasks_used t l e);
  }

  -- The creation leaves the instance.
  pub create-Denotes :
      (calls : (f : Func) (a : Items) (k : Fields) → p.call f a k ≡ run_func u f a k) (cls : ℕ)
      (args : Items) (kwargs : Fields) (i : Value) (handle : ActorHandle) (r r' : Runtime p)
      → Sound p r
      → IsPlain (record { method_name = 0; args = args; kwargs = kwargs })
      → u.construct cls args kwargs ≡ returned i
      → Pickles p (actor_state i)
      → create p cls args kwargs r ≡ some (handle, r')
      → Sound p r' × Denotes p r'.ownership handle.last_ref (actor_state i)
  unfolding create run_func next_unique_id elem
  create-Denotes calls cls args kwargs i handle r r' sound plain builds pickles e =
      let r₁ : Runtime p = (next_unique_id p r).1 in
      let sound₁ = next_unique_id-Sound r sound in
      let ((o, r₂), made, e₁) =
        >>=-eq-some (Driver.submit_task p (init_actor cls) args kwargs r₁) _ e in
      let no_deps = plain_deps (record { method_name = 0; args = args; kwargs = kwargs }) plain in
      let runs : run_func u (init_actor cls) args kwargs ≡ returned (actor_state i) =
        rw builds refl in
      let leaves : Denotes p r₂.ownership o (actor_state i) =
        submit_task-returned p (init_actor cls) args args kwargs kwargs (λ d. py_none) o
          (actor_state i) r₁ r₂ sound₁
          (λ d there. absurd (ground (arith, subst (λ x. elem d x ≡ true) no_deps there)))
          (plain_resolve (λ d. some py_none)
            (record { method_name = 0; args = args; kwargs = kwargs }) plain)
          (calls _ _ _ ∙ runs) pickles made in
      subst
        (λ (x : ActorHandle × Runtime p).
          Sound p x.1 × Denotes p x.1.ownership x.0.last_ref (actor_state i))
        (some-injective _ _ e₁)
        (Step-Sound p r₁ r₂ sound₁ (submits (init_actor cls) args kwargs o made), leaves)

  -- An actor is created in a sound runtime whose tasks do what actor.py says, and its methods are
  -- called, with arguments without references. Where the methods return in turn, on one instance,
  -- and what they leave can be pickled, the reference of each call means what its method returned.
  pub actor-AllDenote :
      (cls : ℕ) (args : Items) (kwargs : Fields) (i : Value) (ms : List MethodCall) (refs : List ℕ)
      (vs : List Value) (handle handle' : ActorHandle) (r r₁ r' : Runtime p)
      → ((f : Func) (a : Items) (k : Fields) → p.call f a k ≡ run_func u f a k)
      → Sound p r
      → IsPlain (record { method_name = 0; args = args; kwargs = kwargs })
      → u.construct cls args kwargs ≡ returned i
      → Pickles p (actor_state i)
      → Returns i ms vs
      → create p cls args kwargs r ≡ some (handle, r₁)
      → call_all p ms handle r₁ ≡ some (refs, handle', r')
      → AllDenote p r'.ownership refs vs
  unfolding instance_in
  actor-AllDenote cls args kwargs i ms refs vs handle handle' r r₁ r' calls sound plain builds
        pickles returns made called =
      let (sound₁, leaves) =
        create-Denotes calls cls args kwargs i handle r r₁ sound plain builds pickles made in
      call_all-AllDenote calls ms handle handle' (actor_state i) i refs vs r₁ r' sound₁ leaves refl
        returns called
