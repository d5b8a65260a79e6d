-- ===== src/Actor/Failures.antt =====
-- What becomes of an actor of python/nano_ray/actor.py when one of its methods raises.
use nano_ray.Prelude.{ℕ, ◌≡◌, refl, ◌∙◌, ap, subst, List, [], ◌∷◌, some, true, elem, All}
use nano_ray.Prelude.Maybe.{>>=-eq-some}
use mathlib.Core.Option.{some-injective}
use Prim.Native.String.{String}
use nano_ray.Values.{
  Value, object_ref, task_error, Items, nil, cons, Fields, end, actor_method_task,
  extract_return_value, Func,
}
use nano_ray.Dag.{extract_dependencies, resolve, resolve_items, resolve_fields, resolve_args}
use nano_ray.Dag.Refs.{extract_dependencies-refs, refs_items}
use nano_ray.Worker.{returned, raised, Platform, outcome, shown}
use nano_ray.Driver
use nano_ray.Driver.{Runtime}
use nano_ray.Driver.Meaning.{Denotes, Denotes-Extends}
use nano_ray.Driver.Soundness.{Sound}
use nano_ray.Driver.Submitted.{submit_task-Denotes}
use nano_ray.Driver.System.{submits}
use nano_ray.Driver.Run.{Step-Sound}
use nano_ray.Driver.Results.{Step-Grows, Steps-Grows}
use nano_ray.Actor.{
  Classes, instance_in, run_func, call_method, second_of, ActorHandle, call_remote,
}
use nano_ray.Actor.Meaning.{MethodCall, IsPlain, method_deps, method_resolve, only_dep}
use nano_ray.Actor.Calls.{call_all, call_all-Steps}

module _ (p : Platform) (u : Classes) where
  -- Where the function raises, the object means the error of its task.
  submit_task-raised :
      (func : Func) (args a : Items) (kwargs k : Fields) (g : ℕ → Value) (o : ℕ) (msg : String)
      (r r' : Runtime p)
      → Sound p r
      → ((d : ℕ) → elem d (extract_dependencies args kwargs) ≡ true → Denotes p r.ownership d (g d))
      → resolve_args (λ d. some (g d)) args kwargs ≡ some (a, k)
      → p.call func a k ≡ raised msg
      → Driver.submit_task p func args kwargs r ≡ some (o, r')
      → Denotes p r'.ownership o (task_error r.next_id msg)
  unfolding outcome shown
  submit_task-raised func args a kwargs k g o msg r r' h deps resolved runs e =
      subst (Denotes p r'.ownership o) (ap (shown p r.next_id) runs)
        (submit_task-Denotes p func args a kwargs k g o r r' h deps resolved e)

  -- The object means the error of a task.
  abbrev pub Fails : Runtime p → ℕ → Type 0
  Fails r o = (t : ℕ) × (msg : String) × Denotes p r.ownership o (task_error t msg)

  -- What a call leaves whose method task raises.
  abbrev AfterFailure : ℕ × ActorHandle × Runtime p → Type 0
  AfterFailure (o, handle, r) = Sound p r × Fails r o × Fails r handle.last_ref

  call_remote-Fails :
      (m : MethodCall) (handle handle' : ActorHandle) (prev : Value) (o : ℕ) (msg : String)
      (r r' : Runtime p)
      → ((f : Func) (a : Items) (k : Fields) → p.call f a k ≡ run_func u f a k)
      → Sound p r
      → IsPlain m
      → Denotes p r.ownership handle.last_ref prev
      → run_func u (actor_method_task m.method_name) (cons prev m.args) m.kwargs ≡ raised msg
      → call_remote p m.method_name m.args m.kwargs handle r ≡ some (o, handle', r')
      → AfterFailure (o, handle', r')
  unfolding call_remote run_func second_of resolve_args resolve_items resolve_fields resolve
      refs_items
  call_remote-Fails m handle handle' prev o msg r r' calls sound plain before fails e =
      let ((o₁, r₁), first, e₁) =
        >>=-eq-some
          (Driver.submit_task p (actor_method_task m.method_name)
            (cons (object_ref handle.last_ref) m.args) m.kwargs r)
          _ e in
      let ((o₂, r₂), second, e₂) =
        >>=-eq-some (Driver.submit_task p extract_return_value (cons (object_ref o₁) nil) end r₁) _
          e₁ in
      let step₁ =
        submits (actor_method_task m.method_name) (cons (object_ref handle.last_ref) m.args)
          m.kwargs o₁ first in
      let step₂ = submits extract_return_value (cons (object_ref o₁) nil) end o₂ second in
      let sound₁ = Step-Sound p r r₁ sound step₁ in
      let broken : Denotes p r₁.ownership o₁ (task_error r.next_id msg) =
        submit_task-raised (actor_method_task m.method_name)
          (cons (object_ref handle.last_ref) m.args) (cons prev m.args) m.kwargs m.kwargs
          (λ d. prev) o₁ msg r r₁ sound
          (only_dep p u handle.last_ref prev _ r (method_deps handle.last_ref m plain) before)
          (method_resolve handle.last_ref prev m plain) (calls _ _ _ ∙ fails) first in
      let strange : Denotes p r₂.ownership o₂ (task_error r₁.next_id "no second element") =
        submit_task-raised extract_return_value (cons (object_ref o₁) nil)
          (cons (task_error r.next_id msg) nil) end end (λ d. task_error r.next_id msg) o₂
          "no second element" r₁ r₂ sound₁
          (only_dep p u o₁ (task_error r.next_id msg) _ r₁
            (extract_dependencies-refs (cons (object_ref o₁) nil) end) broken)
          refl (calls _ _ _) second in
      subst AfterFailure (some-injective _ _ e₂) (
        Step-Sound p r₁ r₂ sound₁ step₂,
        (r₁.next_id, "no second element", strange),
        (r.next_id, msg, Denotes-Extends p (Step-Grows p r₁ r₂ sound₁ step₂) broken),
      )

  abbrev pub AllFail : Runtime p → List ℕ → Type 0
  AllFail r refs = All (Fails r) refs

  -- From a failure on, every call fails.
  call_all-AllFail :
      (ms : List MethodCall) (handle handle' : ActorHandle) (refs : List ℕ) (r r' : Runtime p)
      → ((f : Func) (a : Items) (k : Fields) → p.call f a k ≡ run_func u f a k)
      → Sound p r
      → All IsPlain ms
      → Fails r handle.last_ref
      → call_all p ms handle r ≡ some (refs, handle', r')
      → AllFail r' refs
  unfolding call_all run_func instance_in
  call_all-AllFail [] handle handle' refs r r' calls sound plain before e =
      subst (λ (x : List ℕ × ActorHandle × Runtime p). AllFail x.2 x.0) (some-injective _ _ e) tt
  call_all-AllFail (m ∷ ms) handle handle' refs r r' calls sound plain (t, msg, before) e =
      let ((ref, handle₁, r₁), first, e₁) =
        >>=-eq-some (call_remote p m.method_name m.args m.kwargs handle r) _ e in
      let ((refs₁, handle₂, r₂), rest, e₂) = >>=-eq-some (call_all p ms handle₁ r₁) _ e₁ in
      let (sound₁, (t₁, msg₁, fails), broken) =
        call_remote-Fails m handle handle₁ (task_error t msg) ref _ r r₁ calls sound plain.0 before
          refl first in
      let grows = (Steps-Grows p sound₁ (call_all-Steps p ms handle₁ handle₂ refs₁ r₁ r₂ rest)).1 in
      subst (λ (x : List ℕ × ActorHandle × Runtime p). AllFail x.2 x.0) (some-injective _ _ e₂)
        (
          (t₁, msg₁, Denotes-Extends p grows fails),
          call_all-AllFail ms handle₁ handle₂ refs₁ r₁ r₂ calls sound₁ plain.1 broken rest,
        )

  -- In a sound runtime whose tasks do what actor.py says, the methods of an actor are called, with
  -- arguments without references. Where the first of them raises on the instance, the references of
  -- this call and of all calls after it mean failures.
  pub raised-AllFail :
      (m : MethodCall) (ms : List MethodCall) (handle handle' : ActorHandle) (prev i : Value)
      (msg : String) (refs : List ℕ) (r r' : Runtime p)
      → ((f : Func) (a : Items) (k : Fields) → p.call f a k ≡ run_func u f a k)
      → Sound p r
      → All IsPlain (m ∷ ms)
      → Denotes p r.ownership handle.last_ref prev
      → instance_in prev ≡ returned i
      → u.method m.method_name i m.args m.kwargs ≡ raised msg
      → call_all p (m ∷ ms) handle r ≡ some (refs, handle', r')
      → AllFail r' refs
  unfolding call_all run_func call_method
  raised-AllFail m ms handle handle' prev i msg refs r r' calls sound plain before holds raises e =
      let ((ref, handle₁, r₁), first, e₁) =
        >>=-eq-some (call_remote p m.method_name m.args m.kwargs handle r) _ e in
      let ((refs₁, handle₂, r₂), rest, e₂) = >>=-eq-some (call_all p ms handle₁ r₁) _ e₁ in
      let task_raises : run_func u (actor_method_task m.method_name) (cons prev m.args) m.kwargs
          ≡ raised msg =
        rw (holds, raises) refl in
      let (sound₁, (t₁, msg₁, fails), broken) =
        call_remote-Fails m handle handle₁ prev ref msg r r₁ calls sound plain.0 before task_raises
          first in
      let grows = (Steps-Grows p sound₁ (call_all-Steps p ms handle₁ handle₂ refs₁ r₁ r₂ rest)).1 in
      subst (λ (x : List ℕ × ActorHandle × Runtime p). AllFail x.2 x.0) (some-injective _ _ e₂)
        (
          (t₁, msg₁, Denotes-Extends p grows fails),
          call_all-AllFail ms handle₁ handle₂ refs₁ r₁ r₂ calls sound₁ plain.1 broken rest,
        )
