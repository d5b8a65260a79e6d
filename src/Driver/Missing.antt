-- ===== src/Driver/Missing.antt =====
-- The loop of `reconstruct_object` of python/nano_ray/driver.py over the missing dependencies, and
-- what a thread that waits relies on.
use nano_ray.Prelude.{
  ℕ, ◌≡◌, refl, sym, subst, List, [], ◌∷◌, ◌++◌, Option, none, some, true, false, arith, elem, ◌==◌,
  ==_iff, inl, inr, Bool-cases,
}
use nano_ray.Answers.{Answer, done, >>=-eq-done, done-injective}
use nano_ray.Values.{Items, Fields, Func, TaskSpec}
use nano_ray.ObjectStore
use nano_ray.Dag.{extract_dependencies}
use nano_ray.Worker.{Platform, Message, returned}
use nano_ray.Driver.{Runtime}
use nano_ray.Driver.Flush.{resolves}
use nano_ray.Driver.System.{Steps, here, Steps-trans}
use nano_ray.Driver.Recovery.{Wait, send_again, for_missing}
use nano_ray.Driver.Recoverable.{Ready, Steps-IsLater, Recoverable, Recoverable-later}

module _ (p : Platform) where
  abbrev pub Has : ℕ → Runtime p → Type 0
  Has o r = ObjectStore.contains o r.object_store ≡ true

  -- A wait that ends: the others only work, and the object is there.
  abbrev pub OnlySteps : Wait p → Type 0
  OnlySteps wait =
      (timeout : Option ℕ) (o : ℕ) (r r' : Runtime p)
      → wait timeout o r ≡ some r'
      → Steps p r r' × Has o r'

  -- What a thread that waits can rely on, if the wait is to end: a wait without timeout for the object
  -- of a task in the queue does.
  pub record IsWait (wait : Wait p) : Type 0 where
    pub runs : OnlySteps wait
    pub arrives :
        (before after : List (Option (Message p))) (m : Message p) (o : ℕ) (r : Runtime p)
        → Ready p r
        → r.task_queue ≡ before ++ some m ∷ after
        → m.object_id ≡ o
        → (r' : Runtime p) × (wait none o r ≡ some r')

  -- `r'` comes from `r` by steps, and has the object.
  abbrev pub Gives : ℕ → Runtime p → Runtime p → Type 0
  Gives o r r' = Steps p r r' × Has o r'

  pub send_again-total :
      (t o : ℕ) (bytes : p.Bytes) (func : Func) (args : Items) (kwargs : Fields) (r : Runtime p)
      → p.loads_task bytes ≡ returned (func, args, kwargs)
      → ((d : ℕ) → elem d (extract_dependencies args kwargs) ≡ true → Has d r)
      → (m : Message p) × (m.object_id ≡ o)
        × (send_again p t o bytes r ≡ done (record r { task_queue = r.task_queue ++ some m ∷ [] }))
  unfolding send_again
  send_again-total t o bytes func args kwargs r loads deps =
      let spec : TaskSpec = record {
        task_id = t;
        object_id = o;
        func = func;
        args = args;
        kwargs = kwargs;
      } in
      let (a, k, resolved) = resolves r.object_store spec deps in
      (
        record { task_id = t; object_id = o; payload = p.dumps_task func a k },
        refl,
        rw (loads, resolved) refl,
      )

  module _ (f : ℕ → Runtime p → Answer (Runtime p)) where
    pub for_missing-Steps :
        ((d : ℕ) (r r' : Runtime p) → Ready p r → f d r ≡ done r' → Gives d r r')
        → (ds : List ℕ) (r r' : Runtime p) → Ready p r
        → for_missing p f ds r ≡ done r'
        → Steps p r r'
    unfolding for_missing
    for_missing-Steps h [] r r' ready e = subst (Steps p r) (done-injective _ _ e) here
    for_missing-Steps h (d ∷ ds) r r' ready e =
        elim (Bool-cases (ObjectStore.contains d r.object_store)) [
          | inl there ↦ for_missing-Steps h ds r r' ready (rw there at e)
          | inr missing ↦
              let (r₁, first, rest) = >>=-eq-done (f d r) _ (rw missing at e) in
              let run = (h d r r₁ ready first).0 in
              Steps-trans p run
                (for_missing-Steps h ds r₁ r' (Steps-IsLater p ready run).ready rest)
        ]

    pub for_missing-total :
        (n : ℕ)
        → ((d : ℕ) (r : Runtime p)
            → Ready p r
            → Recoverable p r n d
            → (r' : Runtime p) × (f d r ≡ done r') × Gives d r r')
        → (ds : List ℕ) (r : Runtime p) → Ready p r
        → ((d : ℕ) → elem d ds ≡ true → Recoverable p r n d)
        → (r' : Runtime p) × (for_missing p f ds r ≡ done r')
          × Steps p r r'
          × ((d : ℕ) → elem d ds ≡ true → Has d r')
    unfolding for_missing elem
    for_missing-total n h [] r ready deps = (r, refl, here, λ d e. absurd (ground arith))
    for_missing-total n h (d ∷ ds) r ready deps =
        let (r₁, first, (run, has)) = one in
        let later = Steps-IsLater p ready run in
        let (r₂, rest, more, all) =
          for_missing-total n h ds r₁ later.ready
            (λ x e. Recoverable-later p later (deps x (ground arith))) in
        (
          r₂,
          rw first rest,
          Steps-trans p run more,
          λ x e. elim (Bool-cases (x == d)) [
            | inl same ↦
                subst (λ y. Has y r₂) (sym ((==_iff x d).0 same))
                  ((Steps-IsLater p later.ready more).kept d has)
            | inr other ↦ all x (ground arith)
          ],
        )
      where
        one :
            (r₁ : Runtime p) × (elim (ObjectStore.contains d r.object_store) [
              | true ↦ done r
              | false ↦ f d r
            ]
              ≡ done r₁)
            × Gives d r r₁
        one = elim (Bool-cases (ObjectStore.contains d r.object_store)) [
          | inl there ↦ (r, rw there refl, (here, there))
          | inr missing ↦
              let (r₁, e, gives) = h d r ready (deps d (ground arith)) in
              (r₁, rw missing e, (gives.0, gives.1))
        ]
