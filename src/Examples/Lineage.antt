-- ===== src/Examples/Lineage.antt =====
-- examples/06_lineage_recovery.py, part 3: the diamond, whose objects are lost, is asked for
-- (python/nano_ray/driver.py).
use nano_ray.Prelude.{
  ℕ, ◌+◌, ◌*◌, ◌≡◌, sym, ◌∙◌, ap, subst, [], ◌∷◌, Option, some, true, elem, inl, inr, Bool-cases,
  arith, ◌==◌, ==_iff,
}
use nano_ray.Prelude.Maybe.{>>=-eq-some}
use mathlib.Core.Option.{some-injective}
use nano_ray.Answers.{Answer, done, ◌>>=◌}
use nano_ray.Values.{Value, obj, object_ref, Items, nil, cons, Fields, end}
use nano_ray.Worker.{Platform}
use nano_ray.Driver.{Runtime, submit_task}
use nano_ray.Driver.Meaning.{Denotes-Extends, Denotes-unique}
use nano_ray.Driver.Soundness.{Sound}
use nano_ray.Driver.Recovery.{Wait, checked, get_object}
use nano_ray.Driver.Recoverable.{Ready, Steps-IsLater}
use nano_ray.Driver.Missing.{IsWait}
use nano_ray.Driver.Get.{get_object-total}
use nano_ray.Driver.System.{Steps, here, next, submits}
use nano_ray.Driver.Run.{Step-Sound}
use nano_ray.Driver.Results.{Grows, Extends-trans, Step-Grows}
use nano_ray.Driver.Loss.{
  evict_all, IsLoss-Grows, evict_all-IsLoss, IsTraced, IsTraced-later, submit_task-IsTraced,
}
use nano_ray.Dag.{collect_item, collect_refs, collect_values, extract_dependencies}
use nano_ray.Dag.Refs.{extract_dependencies-refs}
use nano_ray.Examples.Chain.{
  square_func, add_func, square, add, diamond, NumbersPickle, diamond-Denotes,
}

module _ (p : Platform) where
  -- Part 3 from the evictions on.
  unfoldable pub get_after_loss :
      Wait p → ℕ → ℕ → ℕ → ℕ → Option ℕ → Runtime p → Answer (Value × Runtime p)
  unfolding evict_all
  get_after_loss wait limit a b c timeout r =
      get_object p wait limit c timeout (evict_all p (a ∷ b ∷ c ∷ []) r)

  square-IsTraced :
      (x o : ℕ) (r r' : Runtime p)
      → Sound p r
      → submit_task p square_func (cons (obj x) nil) end r ≡ some (o, r')
      → IsTraced p r' 1 o
  unfolding extract_dependencies collect_refs collect_values collect_item elem
  square-IsTraced x o r r' sound e =
      submit_task-IsTraced p 0 square_func (cons (obj x) nil) end o r r' sound
        (λ d there. absurd (ground arith)) e

  pub diamond-Steps :
      (x y a b o : ℕ) (r r' : Runtime p) → diamond p x y r ≡ some ((a, b, o), r') → Steps p r r'
  unfolding diamond
  diamond-Steps x y a b o r r' e =
      let ((a₁, r₁), first, e₁) =
        >>=-eq-some (submit_task p square_func (cons (obj x) nil) end r) _ e in
      let ((b₁, r₂), second, e₂) =
        >>=-eq-some (submit_task p square_func (cons (obj y) nil) end r₁) _ e₁ in
      let args = cons (object_ref a₁) (cons (object_ref b₁) nil) in
      let ((c, r₃), third, e₃) = >>=-eq-some (submit_task p add_func args end r₂) _ e₂ in
      let two =
        next (next here (submits square_func (cons (obj x) nil) end a₁ first))
          (submits square_func (cons (obj y) nil) end b₁ second) in
      subst (λ (z : (ℕ × ℕ × ℕ) × Runtime p). Steps p r z.1) (some-injective _ _ e₃)
        (next two (submits add_func args end c third))

  -- The lineage of the last reference is two tasks deep.
  diamond-IsTraced :
      (x y a b o : ℕ) (r r' : Runtime p)
      → Sound p r
      → diamond p x y r ≡ some ((a, b, o), r')
      → IsTraced p r' 2 o
  unfolding diamond elem nano_ray.Dag.Refs.refs_items
  diamond-IsTraced x y a b o r r' sound e =
      let ((a₁, r₁), first, e₁) =
        >>=-eq-some (submit_task p square_func (cons (obj x) nil) end r) _ e in
      let ((b₁, r₂), second, e₂) =
        >>=-eq-some (submit_task p square_func (cons (obj y) nil) end r₁) _ e₁ in
      let args = cons (object_ref a₁) (cons (object_ref b₁) nil) in
      let ((c, r₃), third, e₃) = >>=-eq-some (submit_task p add_func args end r₂) _ e₂ in
      let step₁ = submits square_func (cons (obj x) nil) end a₁ first in
      let step₂ = submits square_func (cons (obj y) nil) end b₁ second in
      let sound₁ = Step-Sound p r r₁ sound step₁ in
      let sound₂ = Step-Sound p r₁ r₂ sound₁ step₂ in
      let left : IsTraced p r₂ 1 a₁ =
        IsTraced-later p r₁ _ (Step-Grows p r₁ r₂ sound₁ step₂)
          (square-IsTraced x a₁ r r₁ sound first) in
      let right : IsTraced p r₂ 1 b₁ = square-IsTraced y b₁ r₁ r₂ sound₁ second in
      let listed : (d : ℕ) → elem d (a₁ ∷ b₁ ∷ []) ≡ true → IsTraced p r₂ 1 d = λ d there.
        elim (Bool-cases (d == a₁)) [
          | inl same ↦ subst (IsTraced p r₂ 1) (sym ((==_iff d a₁).0 same)) left
          | inr other ↦ subst (IsTraced p r₂ 1) (sym ((==_iff d b₁).0 (ground arith))) right
        ] in
      subst (λ (z : (ℕ × ℕ × ℕ) × Runtime p). IsTraced p z.1 2 z.0.2) (some-injective _ _ e₃)
        (submit_task-IsTraced p 1 add_func args end c r₂ r₃ sound₂
          (λ d there.
            listed d (subst (λ os. elem d os ≡ true) (extract_dependencies-refs args end) there))
          third)

  module _ (squares : (a : Items) (k : Fields) → p.call square_func a k ≡ square a k)
      (adds : (a : Items) (k : Fields) → p.call add_func a k ≡ add a k) (pickle : NumbersPickle p)
      (wait : Wait p) (w : IsWait p wait) where
    -- The diamond is drawn in a sound runtime; in any runtime at work whose table keeps what was
    -- recorded, whatever was evicted or executed since, a `get` for its last reference comes back
    -- with the sum of the two squares, where squares and sums are computed, numbers can be pickled
    -- and waits end.
    pub diamond_got :
        (x y a b o : ℕ) (timeout : Option ℕ) (r r' s : Runtime p)
        → Sound p r
        → diamond p x y r ≡ some ((a, b, o), r')
        → Ready p s
        → Grows p r' s
        → (s' : Runtime p) × (get_object p wait 3 o timeout s ≡ done (obj (x * x + y * y), s'))
    diamond_got x y a b o timeout r r' s sound e ready grows =
        let (s', v, got, (run, has), meaning) =
          get_object-total p wait w 2 o timeout s ready
            (IsTraced-later p r' s grows (diamond-IsTraced x y a b o r r' sound e)) in
        let later = Steps-IsLater p ready run in
        let value : v ≡ obj (x * x + y * y) = Denotes-unique p meaning (
          Denotes-Extends p (Extends-trans p grows later.grows)
            (diamond-Denotes p x y a b o r r' squares adds pickle sound e)) in
        (s', got ∙ ap (λ z. checked z >>= λ u. done (u, s')) value)

    -- The diamond is drawn in a sound runtime. In any runtime at work whose table keeps what was
    -- recorded, and in which no task is pending, all three objects are evicted: a `get` for the last
    -- reference comes back, with any timeout, with the sum of the two squares, where squares and sums
    -- are computed, numbers can be pickled and waits end.
    pub get_after_loss-got :
        (x y a b o : ℕ) (timeout : Option ℕ) (r r' s : Runtime p)
        → Sound p r
        → diamond p x y r ≡ some ((a, b, o), r')
        → Ready p s
        → s.scheduler.pending_tasks ≡ []
        → Grows p r' s
        → (s' : Runtime p) × (get_after_loss wait 3 a b o timeout s
            ≡ done (obj (x * x + y * y), s'))
    unfolding get_after_loss
    get_after_loss-got x y a b o timeout r r' s sound e ready idle grows =
        let lost = evict_all-IsLoss p (a ∷ b ∷ o ∷ []) s idle ready in
        diamond_got x y a b o timeout r r' (evict_all p (a ∷ b ∷ o ∷ []) s) sound e lost.ready
          (Extends-trans p grows (IsLoss-Grows p s _ lost))
