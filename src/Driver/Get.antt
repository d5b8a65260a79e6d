-- ===== src/Driver/Get.antt =====
-- `get_object` of python/nano_ray/driver.py: what a user's `get` comes to.
use nano_ray.Prelude.{
  elem, List, [], ◌∷◌, ◌++◌, ℕ, suc, ◌≡◌, subst, refl, sym, ◌∙◌, Option, none, some, true, false,
  arith, inl, inr, Bool-cases, Option-cases,
}
use nano_ray.Answers.{
  blocked, Answer, done, >>=-eq-done, done-injective, ◌>>=◌, or_blocked, or_blocked-eq-done,
}
use nano_ray.Values.{Value, Items, Fields, Func}
use nano_ray.Dag.{extract_dependencies}
use nano_ray.ObjectStore
use nano_ray.ObjectStore.Laws.{content, get_now-content, contains-content}
use nano_ray.Ownership.{get_producer_task, get_task_lineage}
use nano_ray.Worker.{Platform, returned}
use nano_ray.Driver.{Runtime}
use nano_ray.Driver.Meaning.{Denotes}
use nano_ray.Driver.System.{Steps-trans, Steps, here}
use nano_ray.Driver.Recovery.{
  checked-eq-done, Wait, late, checked, reconstruct_object, await, auto_reconstruct, get_object,
  for_missing,
}
use nano_ray.Driver.Recoverable.{Ready, Steps-IsLater, Recoverable, stored, rebuilt}
use nano_ray.Driver.Missing.{send_again-total, Has, OnlySteps, IsWait, Gives}
use nano_ray.Driver.Rebuild.{reconstruct_object-Gives, reconstruct_object-total}

module _ (p : Platform) (wait : Wait p) (w : IsWait p wait) where
  auto_reconstruct-total :
      (n o : ℕ) (r : Runtime p)
      → Ready p r
      → Recoverable p r n o
      → (r' : Runtime p) × (auto_reconstruct p wait (suc n) o r ≡ done r') × Gives p o r r'
  unfolding auto_reconstruct
  auto_reconstruct-total n o r ready rec =
      elim (Bool-cases (ObjectStore.contains o r.object_store)) [
        | inl there ↦ (r, rw (auto_reconstruct, there) refl, (here, there))
        | inr missing ↦
            let (t, prod) = producer rec missing in
            let (r', e, gives) = reconstruct_object-total p wait w n o r ready rec in
            (r', rw (auto_reconstruct, missing, prod) e, gives)
      ]
    where
      producer :
          {n : ℕ}
          → Recoverable p r n o
          → ObjectStore.contains o r.object_store ≡ false
          → (t : ℕ) × (get_producer_task o r.ownership ≡ some t)
      producer (stored there) missing = absurd (ground arith)
      producer (rebuilt t bytes func args kwargs prod lin loads deps) missing = (t, prod)

  value_at : (o : ℕ) (r : Runtime p) → Has p o r → (v : Value) × (content r.object_store o ≡ some v)
  value_at o r there = elim (Option-cases (content r.object_store o)) [
    | inl e ↦ absurd (ground (arith, contains-content o r.object_store))
    | inr found ↦ found
  ]

  got :
      (limit o : ℕ) (timeout : Option ℕ) (r r' : Runtime p) (v : Value)
      → auto_reconstruct p wait limit o r ≡ done r'
      → Has p o r'
      → content r'.object_store o ≡ some v
      → get_object p wait limit o timeout r ≡ (checked v >>= λ x. done (x, r'))
  unfolding get_object await
  got limit o timeout r r' v e there found =
      rw (get_object, e, await, there) (rw (get_now-content o r'.object_store, found) refl)

  -- On a runtime at work, a `get` for an object that is stored or can be rebuilt within the limit of
  -- nested calls comes back, with any timeout, after steps of the runtime: it returns the value of
  -- the object's task at the values of its arguments, and raises if that is a failure.
  pub get_object-total :
      (n o : ℕ) (timeout : Option ℕ) (r : Runtime p)
      → Ready p r
      → Recoverable p r n o
      → (r' : Runtime p) × (v : Value) × (get_object p wait (suc n) o timeout r
          ≡ (checked v >>= λ x. done (x, r')))
        × Gives p o r r'
        × Denotes p r'.ownership o v
  unfolding get_object await
  get_object-total n o timeout r ready rec =
      let (r', e, (run, there)) = auto_reconstruct-total n o r ready rec in
      let (v, found) = value_at o r' there in
      (
        r',
        v,
        got (suc n) o timeout r r' v e there found,
        (run, there),
        (Steps-IsLater p ready run).ready.sound.stored o v found,
      )

module _ (p : Platform) (wait : Wait p) (only : OnlySteps p wait) where
  auto_reconstruct-Steps :
      (limit o : ℕ) (r r' : Runtime p)
      → Ready p r
      → auto_reconstruct p wait limit o r ≡ done r'
      → Steps p r r'
  unfolding auto_reconstruct
  auto_reconstruct-Steps limit o r r' ready e =
      elim (Bool-cases (ObjectStore.contains o r.object_store)) [
        | inl there ↦
            subst (Steps p r) (done-injective _ _ (rw (auto_reconstruct, there) at e)) here
        | inr missing ↦ elim (Option-cases (get_producer_task o r.ownership)) [
          | inl none_yet ↦
              subst (Steps p r) (done-injective _ _ (rw (auto_reconstruct, missing, none_yet) at e))
                here
          | inr (t, prod) ↦
              (reconstruct_object-Gives p wait only limit o r r' ready
                (rw (auto_reconstruct, missing, prod) at e)).0
        ]
      ]

  await-Steps :
      (timeout : Option ℕ) (o : ℕ) (r r' : Runtime p)
      → await p wait timeout o r ≡ done r'
      → Steps p r r'
  unfolding await
  await-Steps timeout o r r' e = elim (Bool-cases (ObjectStore.contains o r.object_store)) [
    | inl there ↦ subst (Steps p r) (done-injective _ _ (rw (await, there) at e)) here
    | inr missing ↦ elim (Option-cases (wait timeout o r)) [
      | inl never ↦ absurd (late_lem timeout (rw (await, missing, never) at e))
      | inr (r₁, came) ↦
          subst (Steps p r) (done-injective _ _ (rw (await, missing, came) at e))
            (only timeout o r r₁ came).0
    ]
  ]
    where
      late_lem : (timeout : Option ℕ) → ¬ (late p wait timeout o ≡ done r')
      late_lem none h = ground arith
      late_lem (some t) h = ground arith

  -- In every runtime at work whose waits, where they end, take steps of the runtime and leave the object
  -- there, whatever the limit of nested calls, the timeout and the object: where a `get` returns, only steps of the runtime were taken, and the value is that of the object's
  -- task at the values of its arguments.
  pub get_object-Denotes :
      (limit o : ℕ) (timeout : Option ℕ) (r r' : Runtime p) (v : Value)
      → Ready p r
      → get_object p wait limit o timeout r ≡ done (v, r')
      → Steps p r r' × Denotes p r'.ownership o v
  unfolding get_object
  get_object-Denotes limit o timeout r r' v ready e =
      let (r₁, rebuild, e₁) = >>=-eq-done (auto_reconstruct p wait limit o r) _ e in
      let (r₂, wait_for, e₂) = >>=-eq-done (await p wait timeout o r₁) _ e₁ in
      let (x, found, e₃) = >>=-eq-done (or_blocked (ObjectStore.get_now o r₂.object_store)) _ e₂ in
      let (y, check, e₄) = >>=-eq-done (checked x) _ e₃ in
      let same : (y, r₂) ≡ (v, r') = done-injective _ _ e₄ in
      let run =
        Steps-trans p (auto_reconstruct-Steps limit o r r₁ ready rebuild)
          (await-Steps timeout o r₁ r₂ wait_for) in
      let denotes : Denotes p r₂.ownership o x =
        (Steps-IsLater p ready run).ready.sound.stored o x
          (sym (get_now-content o r₂.object_store) ∙ or_blocked-eq-done _ x found) in
      let gives : Steps p r r₂ × Denotes p r₂.ownership o y =
        (run, subst (Denotes p r₂.ownership o) (checked-eq-done x y check) denotes) in
      subst (λ (z : Value × Runtime p). Steps p r z.1 × Denotes p z.1.ownership o z.0) same gives

module _ (p : Platform) (wait : Wait p) where
  for_missing_none :
      (f : ℕ → Runtime p → Answer (Runtime p)) (ds : List ℕ) (r : Runtime p)
      → ((d : ℕ) → elem d ds ≡ true → Has p d r)
      → for_missing p f ds r ≡ done r
  unfolding for_missing elem
  for_missing_none f [] r h = refl
  for_missing_none f (d ∷ ds) r h =
      rw (h d (ground arith)) (for_missing_none f ds r (λ x e. h x (ground arith)))

  -- Where an object that a task has to produce is missing, its arguments are there and the wait
  -- for it does not end, a `get` never comes back, whatever its timeout, though the task may
  -- already be in the queue.
  pub get_object_late :
      (limit o t : ℕ) (timeout : Option ℕ) (bytes : p.Bytes) (func : Func) (args : Items)
      (kwargs : Fields) (r : Runtime p)
      → ObjectStore.contains o r.object_store ≡ false
      → get_producer_task o r.ownership ≡ some t
      → get_task_lineage t r.ownership ≡ some (bytes, extract_dependencies args kwargs)
      → p.loads_task bytes ≡ returned (func, args, kwargs)
      → ((d : ℕ) → elem d (extract_dependencies args kwargs) ≡ true → Has p d r)
      → ((r' : Runtime p) → wait none o r' ≡ none)
      → get_object p wait (suc limit) o timeout r ≡ blocked
  unfolding get_object auto_reconstruct reconstruct_object
  get_object_late limit o t timeout bytes func args kwargs r missing prod lin loads deps never =
      let loop =
        for_missing_none (reconstruct_object p wait limit) (extract_dependencies args kwargs) r
          deps in
      let (m, its, sent) = send_again-total p t o bytes func args kwargs r loads deps in
      rw
        (
          get_object, auto_reconstruct, missing, prod, reconstruct_object, missing, prod, lin, loop,
          sent,
        )
        (rw (never (record r { task_queue = r.task_queue ++ some m ∷ [] })) refl)
