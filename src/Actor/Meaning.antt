-- ===== src/Actor/Meaning.antt =====
-- The method calls of an actor (python/nano_ray/actor.py) on a local runtime
-- (python/nano_ray/driver.py): what the objects that users get for them mean.
use nano_ray.Prelude.{
  ℕ, ◌≡◌, refl, sym, ◌∙◌, ap, subst, List, [], ◌∷◌, Option, none, some, true, arith, elem, ==_iff,
  is_some,
}
use nano_ray.Prelude.Maybe.{>>=-eq-some}
use mathlib.Core.Option.{some-injective}
use nano_ray.Values.{
  Value, object_ref, tuple, actor_state, Items, nil, cons, Fields, end, actor_method_task,
  extract_return_value, Func,
}
use nano_ray.Dag.{extract_dependencies, resolve, resolve_items, resolve_fields, resolve_args}
use nano_ray.Dag.Refs.{extract_dependencies-refs, refs_items}
use nano_ray.Dag.Resolve.{Agree, all_return, is_some-resolve_args, resolve_args_congr}
use nano_ray.Worker.{returned, Platform}
use nano_ray.Driver
use nano_ray.Driver.{Runtime}
use nano_ray.Driver.Meaning.{Denotes, Denotes-Extends}
use nano_ray.Driver.Soundness.{Sound}
use nano_ray.Driver.Submitted.{submit_task-returned, Pickles}
use nano_ray.Driver.System.{submits, Steps, here, next}
use nano_ray.Driver.Run.{Step-Sound}
use nano_ray.Driver.Results.{Step-Grows}
use nano_ray.Actor.{
  Classes, instance_in, run_func, call_method, second_of, ActorHandle, call_remote,
}

pub record MethodCall : Type 0 where
  pub method_name : ℕ
  pub args : Items
  pub kwargs : Fields

-- The arguments of a call hold no references.
abbrev pub IsPlain : MethodCall → Type 0
IsPlain m = resolve_args (λ d. none) m.args m.kwargs ≡ some (m.args, m.kwargs)

pub no_return : (os : List ℕ) → all_return (λ d. none) os ≡ true → os ≡ []
unfolding all_return
no_return [] h = refl
no_return (o ∷ os) h = absurd (ground arith)

pub plain_deps : (m : MethodCall) → IsPlain m → extract_dependencies m.args m.kwargs ≡ []
plain_deps m h =
    no_return (extract_dependencies m.args m.kwargs)
      (sym (is_some-resolve_args (λ d. none) m.args m.kwargs) ∙ ap is_some h)

-- A call's task depends on the task before it alone.
pub method_deps :
    (o : ℕ) (m : MethodCall)
    → IsPlain m
    → extract_dependencies (cons (object_ref o) m.args) m.kwargs ≡ o ∷ []
unfolding refs_items
method_deps o m h =
    extract_dependencies-refs (cons (object_ref o) m.args) m.kwargs
    ∙ ap (λ os. o ∷ os) (sym (extract_dependencies-refs m.args m.kwargs) ∙ plain_deps m h)

pub plain_resolve :
    (f : ℕ → Option Value) (m : MethodCall)
    → IsPlain m
    → resolve_args f m.args m.kwargs ≡ some (m.args, m.kwargs)
plain_resolve f m h =
    resolve_args_congr f (λ d. none) m.args m.kwargs
      (subst (Agree f (λ d. none)) (sym (plain_deps m h)) tt)
    ∙ h

pub method_resolve :
    (o : ℕ) (v : Value) (m : MethodCall)
    → IsPlain m
    → resolve_args (λ d. some v) (cons (object_ref o) m.args) m.kwargs
      ≡ some (cons v m.args, m.kwargs)
unfolding resolve_args resolve_items resolve
method_resolve o v m h =
    let (xs, items, e) =
      >>=-eq-some (resolve_items (λ d. some v) m.args) _ (plain_resolve (λ d. some v) m h) in
    let (ks, fields, e') = >>=-eq-some (resolve_fields (λ d. some v) m.kwargs) _ e in
    rw (items, fields) (ap (λ (x : Items × Fields). some (cons v x.0, x.1)) (some-injective _ _ e'))

module _ (p : Platform) (u : Classes) where
  -- What a method task leaves.
  abbrev pub left_by : Value → Value → Value
  left_by changed result = tuple (cons (actor_state changed) (cons result nil))

  pub only_dep :
      (o : ℕ) (v : Value) (deps : List ℕ) (r : Runtime p)
      → deps ≡ o ∷ []
      → Denotes p r.ownership o v
      → (d : ℕ) → elem d deps ≡ true
      → Denotes p r.ownership d v
  unfolding elem
  only_dep o v deps r e h d there =
      let here : elem d (o ∷ []) ≡ true = subst (λ x. elem d x ≡ true) e there in
      subst (λ x. Denotes p r.ownership x v) (sym ((==_iff d o).0 (ground arith))) h

  method_task-Denotes :
      (m : MethodCall) (last o : ℕ) (prev i changed result : Value) (r r' : Runtime p)
      → ((f : Func) (a : Items) (k : Fields) → p.call f a k ≡ run_func u f a k)
      → Sound p r
      → IsPlain m
      → Denotes p r.ownership last prev
      → instance_in prev ≡ returned i
      → u.method m.method_name i m.args m.kwargs ≡ returned (changed, result)
      → Pickles p (left_by changed result)
      → Driver.submit_task p
          (actor_method_task m.method_name)
          (cons (object_ref last) m.args)
          m.kwargs
          r
        ≡ some (o, r')
      → Denotes p r'.ownership o (left_by changed result)
  unfolding run_func call_method
  method_task-Denotes m last o prev i changed result r r' calls sound plain before holds does
        pickles e =
      let runs : run_func u (actor_method_task m.method_name) (cons prev m.args) m.kwargs
          ≡ returned (left_by changed result) =
        rw (holds, does) refl in
      submit_task-returned p (actor_method_task m.method_name) (cons (object_ref last) m.args)
        (cons prev m.args) m.kwargs m.kwargs (λ d. prev) o (left_by changed result) r r' sound
        (only_dep last prev _ r (method_deps last m plain) before)
        (method_resolve last prev m plain) (calls _ _ _ ∙ runs) pickles e

  value_task-Denotes :
      (last o : ℕ) (changed result : Value) (r r' : Runtime p)
      → ((f : Func) (a : Items) (k : Fields) → p.call f a k ≡ run_func u f a k)
      → Sound p r
      → Denotes p r.ownership last (left_by changed result)
      → Pickles p result
      → Driver.submit_task p extract_return_value (cons (object_ref last) nil) end r ≡ some (o, r')
      → Denotes p r'.ownership o result
  unfolding run_func second_of resolve_args resolve_items resolve_fields resolve refs_items
  value_task-Denotes last o changed result r r' calls sound before pickles e =
      submit_task-returned p extract_return_value (cons (object_ref last) nil)
        (cons (left_by changed result) nil) end end (λ d. left_by changed result) o result r r'
        sound
        (only_dep last (left_by changed result) _ r
          (extract_dependencies-refs (cons (object_ref last) nil) end) before)
        refl (calls _ _ _) pickles e

  -- One call: the object for the user, and the one that the next call starts from.
  pub call_remote-Denotes :
      (m : MethodCall) (handle handle' : ActorHandle) (prev i changed result : Value) (o : ℕ)
      (r r' : Runtime p)
      → ((f : Func) (a : Items) (k : Fields) → p.call f a k ≡ run_func u f a k)
      → Sound p r
      → IsPlain m
      → Denotes p r.ownership handle.last_ref prev
      → instance_in prev ≡ returned i
      → u.method m.method_name i m.args m.kwargs ≡ returned (changed, result)
      → Pickles p (left_by changed result)
      → Pickles p result
      → call_remote p m.method_name m.args m.kwargs handle r ≡ some (o, handle', r')
      → Sound p r'
        × Denotes p r'.ownership o result
        × Denotes p r'.ownership handle'.last_ref (left_by changed result)
  unfolding call_remote
  call_remote-Denotes m handle handle' prev i changed result o r r' calls sound plain before holds
        does pickles pickles' e =
      let ((o₁, r₁), first, e₁) =
        >>=-eq-some
          (Driver.submit_task p (actor_method_task m.method_name)
            (cons (object_ref handle.last_ref) m.args) m.kwargs r)
          _ e in
      let ((o₂, r₂), second, e₂) =
        >>=-eq-some (Driver.submit_task p extract_return_value (cons (object_ref o₁) nil) end r₁) _
          e₁ in
      let step₁ =
        submits (actor_method_task m.method_name) (cons (object_ref handle.last_ref) m.args)
          m.kwargs o₁ first in
      let step₂ = submits extract_return_value (cons (object_ref o₁) nil) end o₂ second in
      let sound₁ = Step-Sound p r r₁ sound step₁ in
      let changes : Denotes p r₁.ownership o₁ (left_by changed result) =
        method_task-Denotes m handle.last_ref o₁ prev i changed result r r₁ calls sound plain before
          holds does pickles first in
      let gives : Denotes p r₂.ownership o₂ result =
        value_task-Denotes o₁ o₂ changed result r₁ r₂ calls sound₁ changes pickles' second in
      subst
        (λ (x : ℕ × ActorHandle × Runtime p).
          Sound p x.2
          × Denotes p x.2.ownership x.0 result
          × Denotes p x.2.ownership x.1.last_ref (left_by changed result))
        (some-injective _ _ e₂)
        (
          Step-Sound p r₁ r₂ sound₁ step₂,
          gives,
          Denotes-Extends p (Step-Grows p r₁ r₂ sound₁ step₂) changes,
        )

module _ (p : Platform) where
  pub call_remote-Steps :
      (m : MethodCall) (handle handle' : ActorHandle) (o : ℕ) (r r' : Runtime p)
      → call_remote p m.method_name m.args m.kwargs handle r ≡ some (o, handle', r')
      → Steps p r r'
  unfolding call_remote
  call_remote-Steps m handle handle' o r r' e =
      let ((o₁, r₁), first, e₁) =
        >>=-eq-some
          (Driver.submit_task p (actor_method_task m.method_name)
            (cons (object_ref handle.last_ref) m.args) m.kwargs r)
          _ e in
      let ((o₂, r₂), second, e₂) =
        >>=-eq-some (Driver.submit_task p extract_return_value (cons (object_ref o₁) nil) end r₁) _
          e₁ in
      subst (λ (x : ℕ × ActorHandle × Runtime p). Steps p r x.2) (some-injective _ _ e₂)
        (next
          (next here (
            submits (actor_method_task m.method_name) (cons (object_ref handle.last_ref) m.args)
              m.kwargs o₁ first))
          (submits extract_return_value (cons (object_ref o₁) nil) end o₂ second))
