-- ===== src/Examples/Chain.antt =====
-- The diamond of examples/03_task_chain.py and examples/06_lineage_recovery.py on a local runtime
-- (python/nano_ray/driver.py): `add.remote(square.remote(x), square.remote(y))`.
use nano_ray.Prelude.{
  ℕ, ◌+◌, ◌*◌, ◌≡◌, refl, sym, ◌∙◌, ap, subst, [], ◌∷◌, Option, some, true, elem, ◌==◌,
  if◌then◌else◌, inl, inr, Bool-cases, ==_iff, arith,
}
use nano_ray.Prelude.Maybe.{◌>>=◌, >>=-eq-some}
use nano_ray.Values.{Value, obj, object_ref, Items, nil, cons, Fields, end, Func, user}
use nano_ray.Worker.{Outcome, returned, raised, Platform}
use nano_ray.Driver.{Runtime, submit_task}
use nano_ray.Driver.Meaning.{Denotes, Denotes-Extends, Denotes-unique}
use nano_ray.Driver.Soundness.{Sound}
use nano_ray.Driver.Submitted.{submit_task-returned, Pickles}
use nano_ray.Driver.System.{submits}
use nano_ray.Driver.Run.{Step-Sound}
use nano_ray.Driver.Results.{Grows, Step-Grows}
use nano_ray.Dag.{
  collect_item, collect_refs, collect_values, extract_dependencies, resolve, resolve_items,
  resolve_fields, resolve_args,
}
use nano_ray.Dag.Refs.{extract_dependencies-refs}
use mathlib.Core.Option.{some-injective}

-- The functions' numbers.
abbrev pub square_func : Func
square_func = user 0

abbrev pub add_func : Func
add_func = user 1

unfoldable pub square : Items → Fields → Outcome Value
square (cons (obj x) nil) end = returned (obj (x * x))
square _ _ = raised "TypeError"

unfoldable pub add : Items → Fields → Outcome Value
add (cons (obj a) (cons (obj b) nil)) end = returned (obj (a + b))
add _ _ = raised "TypeError"

module _ (p : Platform) where
  -- The three references and the runtime.
  unfoldable pub diamond : ℕ → ℕ → Runtime p → Option ((ℕ × ℕ × ℕ) × Runtime p)
  diamond x y r = do
    (a, r₁) ← submit_task p square_func (cons (obj x) nil) end r
    (b, r₂) ← submit_task p square_func (cons (obj y) nil) end r₁
    (c, r₃) ← submit_task p add_func (cons (object_ref a) (cons (object_ref b) nil)) end r₂
    some ((a, b, c), r₃)

  -- Every number can be pickled.
  abbrev pub NumbersPickle : Type 0
  NumbersPickle = (n : ℕ) → Pickles p (obj n)

  square-Denotes :
      (x o : ℕ) (r r' : Runtime p)
      → ((a : Items) (k : Fields) → p.call square_func a k ≡ square a k)
      → NumbersPickle
      → Sound p r
      → submit_task p square_func (cons (obj x) nil) end r ≡ some (o, r')
      → Sound p r' × Grows p r r' × Denotes p r'.ownership o (obj (x * x))
  unfolding square resolve_args resolve_items resolve_fields resolve extract_dependencies
      collect_refs collect_values collect_item elem
  square-Denotes x o r r' squares pickle sound e =
      let step = submits square_func (cons (obj x) nil) end o e in
      (
        Step-Sound p r r' sound step,
        Step-Grows p r r' sound step,
        submit_task-returned p square_func (cons (obj x) nil) (cons (obj x) nil) end end
            (λ d. obj 0) o (obj (x * x)) r r' sound (λ d there. absurd (ground arith)) refl
            (squares _ _) (pickle (x * x)) e,
      )

  -- The values of the two squares, by reference.
  abbrev value_of : ℕ → ℕ → ℕ → ℕ → Value
  value_of x y a d = if d == a then obj (x * x) else obj (y * y)

  add-Denotes :
      (x y a b o : ℕ) (r r' : Runtime p)
      → ((args : Items) (kwargs : Fields) → p.call add_func args kwargs ≡ add args kwargs)
      → NumbersPickle
      → Sound p r
      → Denotes p r.ownership a (obj (x * x))
      → Denotes p r.ownership b (obj (y * y))
      → submit_task p add_func (cons (object_ref a) (cons (object_ref b) nil)) end r ≡ some (o, r')
      → Denotes p r'.ownership o (obj (x * x + y * y))
  unfolding add resolve_args resolve_items resolve_fields resolve elem nano_ray.Dag.Refs.refs_items
  add-Denotes x y a b o r r' adds pickle sound left right e =
      submit_task-returned p add_func (cons (object_ref a) (cons (object_ref b) nil))
        (cons (obj (x * x)) (cons (obj (y * y)) nil)) end end (value_of x y a) o
        (obj (x * x + y * y)) r r' sound deps resolved (adds _ _) (pickle (x * x + y * y)) e
    where
      at_a : value_of x y a a ≡ obj (x * x)
      at_a = rw ((==_iff a a).1 refl) refl

      at_b : value_of x y a b ≡ obj (y * y)
      at_b = elim (Bool-cases (b == a)) [
        | inl same ↦ rw same (
            Denotes-unique p
              (subst (λ d. Denotes p r.ownership d (obj (x * x))) (sym ((==_iff b a).0 same)) left)
              right)
        | inr other ↦ rw other refl
      ]

      resolved :
          resolve_args
            (λ d. some (value_of x y a d))
            (cons (object_ref a) (cons (object_ref b) nil))
            end
          ≡ some (cons (obj (x * x)) (cons (obj (y * y)) nil), end)
      resolved =
          ap (λ v. some (cons v (cons (value_of x y a b) nil), end)) at_a
          ∙ ap (λ v. some (cons (obj (x * x)) (cons v nil), end)) at_b

      listed : (d : ℕ) → elem d (a ∷ b ∷ []) ≡ true → Denotes p r.ownership d (value_of x y a d)
      listed d there = elim (Bool-cases (d == a)) [
        | inl same ↦
            subst (λ z. Denotes p r.ownership z (value_of x y a z)) (sym ((==_iff d a).0 same))
              (subst (Denotes p r.ownership a) (sym at_a) left)
        | inr other ↦
            subst (λ z. Denotes p r.ownership z (value_of x y a z))
              (sym ((==_iff d b).0 (ground arith)))
              (subst (Denotes p r.ownership b) (sym at_b) right)
      ]

      deps :
          (d : ℕ)
          → elem d (extract_dependencies (cons (object_ref a) (cons (object_ref b) nil)) end) ≡ true
          → Denotes p r.ownership d (value_of x y a d)
      deps d there = listed d (
          subst (λ os. elem d os ≡ true)
            (extract_dependencies-refs (cons (object_ref a) (cons (object_ref b) nil)) end) there)

  -- In a sound runtime whose tasks compute squares and sums of numbers that can be pickled, the last
  -- reference of the diamond means the sum of the two squares.
  pub diamond-Denotes :
      (x y a b o : ℕ) (r r' : Runtime p)
      → ((args : Items) (kwargs : Fields) → p.call square_func args kwargs ≡ square args kwargs)
      → ((args : Items) (kwargs : Fields) → p.call add_func args kwargs ≡ add args kwargs)
      → NumbersPickle
      → Sound p r
      → diamond x y r ≡ some ((a, b, o), r')
      → Denotes p r'.ownership o (obj (x * x + y * y))
  unfolding diamond
  diamond-Denotes x y a b o r r' squares adds pickle sound e =
      let ((a₁, r₁), first, e₁) =
        >>=-eq-some (submit_task p square_func (cons (obj x) nil) end r) _ e in
      let ((b₁, r₂), second, e₂) =
        >>=-eq-some (submit_task p square_func (cons (obj y) nil) end r₁) _ e₁ in
      let ((c, r₃), third, e₃) =
        >>=-eq-some
          (submit_task p add_func (cons (object_ref a₁) (cons (object_ref b₁) nil)) end r₂) _ e₂ in
      let (sound₁, grows₁, left) = square-Denotes x a₁ r r₁ squares pickle sound first in
      let (sound₂, grows₂, right) = square-Denotes y b₁ r₁ r₂ squares pickle sound₁ second in
      subst (λ (z : (ℕ × ℕ × ℕ) × Runtime p). Denotes p z.1.ownership z.0.2 (obj (x * x + y * y)))
        (some-injective _ _ e₃)
        (add-Denotes x y a₁ b₁ c r₂ r₃ adds pickle sound₂ (Denotes-Extends p grows₂ left) right
          third)
