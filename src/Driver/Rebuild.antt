-- ===== src/Driver/Rebuild.antt =====
-- `reconstruct_object` and `get_object` of python/nano_ray/driver.py, on the runtimes that a run
-- reaches.
use nano_ray.Prelude.{
  ℕ, zero, suc, ◌≡◌, refl, subst, List, [], ◌∷◌, ◌++◌, none, some, true, arith, elem, inl, inr,
  Bool-cases,
}
use nano_ray.Answers.{
  Answer, done, no_lineage, or_failed-eq-done, >>=-eq-done, done-injective, or_blocked,
  or_blocked-eq-done, ◌>>=◌, or_failed,
}
use nano_ray.Values.{Items, Fields, Func}
use nano_ray.ObjectStore
use nano_ray.Ownership.{get_producer_task, get_task_lineage}
use nano_ray.Dag.{extract_dependencies}
use nano_ray.Worker.{Platform, returned}
use nano_ray.Driver.{Runtime}
use nano_ray.Driver.System.{here, next, resends, Steps-trans}
use nano_ray.Driver.Recovery.{Wait, send_again, for_missing, reconstruct_object}
use nano_ray.Driver.Recoverable.{Ready, Steps-IsLater, Recoverable, stored, rebuilt}
use nano_ray.Driver.Missing.{
  IsWait, OnlySteps, Gives, for_missing-Steps, for_missing-total, send_again-total,
}

module _ (p : Platform) where
  module _ (wait : Wait p) where
    -- The steps of `reconstruct_object` at an object that is missing.
    abbrev rebuilds : (limit o t : ℕ) → p.Bytes → List ℕ → Runtime p → Answer (Runtime p)
    rebuilds limit o t bytes deps r =
        for_missing p (reconstruct_object p wait limit) deps r >>= λ r₁.
        send_again p t o bytes r₁ >>= λ r₂. or_blocked (wait none o r₂)

  module _ (wait : Wait p) (only : OnlySteps p wait) where
    rebuilds-Steps :
        (limit o t : ℕ) (bytes : p.Bytes) (deps : List ℕ) (r r' : Runtime p)
        → ((d : ℕ) (r r' : Runtime p)
            → Ready p r
            → reconstruct_object p wait limit d r ≡ done r'
            → Gives p d r r')
        → get_producer_task o r.ownership ≡ some t
        → get_task_lineage t r.ownership ≡ some (bytes, deps)
        → Ready p r
        → rebuilds wait limit o t bytes deps r ≡ done r'
        → Gives p o r r'
    rebuilds-Steps limit o t bytes deps r r' h prod lin ready e =
        let (r₁, loop, e₁) =
          >>=-eq-done (for_missing p (reconstruct_object p wait limit) deps r) _ e in
        let (r₂, sent, e₂) = >>=-eq-done (send_again p t o bytes r₁) _ e₁ in
        let run = for_missing-Steps p (reconstruct_object p wait limit) h deps r r₁ ready loop in
        let later = Steps-IsLater p ready run in
        let (more, has) = only none o r₂ r' (or_blocked-eq-done _ r' e₂) in
        (
          Steps-trans p
              (next run (
                resends t o bytes deps (later.grows.producers o t prod)
                  (later.grows.lineages t (bytes, deps) lin) sent))
              more,
          has,
        )

    -- Where `reconstruct_object` returns, only steps of the runtime were taken, and the object is
    -- stored.
    pub reconstruct_object-Gives :
        (limit o : ℕ) (r r' : Runtime p)
        → Ready p r
        → reconstruct_object p wait limit o r ≡ done r'
        → Gives p o r r'
    unfolding reconstruct_object
    reconstruct_object-Gives zero o r r' ready e = absurd (ground arith)
    reconstruct_object-Gives (suc limit) o r r' ready e =
        elim (Bool-cases (ObjectStore.contains o r.object_store)) [
          | inl there ↦
              let same : r ≡ r' = done-injective _ _ (rw (reconstruct_object, there) at e) in
              subst (Gives p o r) same (here, there)
          | inr missing ↦
              let (t, prod, e₁) =
                >>=-eq-done (or_failed (no_lineage o) (get_producer_task o r.ownership)) _
                  (rw (reconstruct_object, missing) at e) in
              let ((bytes, deps), lin, e₂) =
                >>=-eq-done (or_failed (no_lineage o) (get_task_lineage t r.ownership)) _ e₁ in
              rebuilds-Steps limit o t bytes deps r r' (reconstruct_object-Gives limit)
                (or_failed-eq-done _ _ t prod) (or_failed-eq-done _ _ (bytes, deps) lin) ready e₂
        ]

  module _ (wait : Wait p) (w : IsWait p wait) where
    rebuilds-done :
        (limit o t : ℕ) (bytes : p.Bytes) (deps : List ℕ) (r r₁ r₂ r' : Runtime p)
        → for_missing p (reconstruct_object p wait limit) deps r ≡ done r₁
        → send_again p t o bytes r₁ ≡ done r₂
        → wait none o r₂ ≡ some r'
        → rebuilds wait limit o t bytes deps r ≡ done r'
    rebuilds-done limit o t bytes deps r r₁ r₂ r' loop sent there = rw (loop, sent, there) refl

    -- A missing object whose task's needs can be met.
    rebuilds-total :
        (n o t : ℕ) (bytes : p.Bytes) (func : Func) (args : Items) (kwargs : Fields) (r : Runtime p)
        → Ready p r
        → ((d : ℕ) (r : Runtime p)
            → Ready p r
            → Recoverable p r n d
            → (r' : Runtime p) × (reconstruct_object p wait (suc n) d r ≡ done r') × Gives p d r r')
        → get_producer_task o r.ownership ≡ some t
        → get_task_lineage t r.ownership ≡ some (bytes, extract_dependencies args kwargs)
        → p.loads_task bytes ≡ returned (func, args, kwargs)
        → ((d : ℕ) → elem d (extract_dependencies args kwargs) ≡ true → Recoverable p r n d)
        → (r' : Runtime p) × (rebuilds wait (suc n) o t bytes (extract_dependencies args kwargs) r
            ≡ done r')
    rebuilds-total n o t bytes func args kwargs r ready h prod lin loads deps =
        let (r₁, loop, run, all) =
          for_missing-total p (reconstruct_object p wait (suc n)) n h
            (extract_dependencies args kwargs) r ready deps in
        let later = Steps-IsLater p ready run in
        let (m, its, sent) = send_again-total p t o bytes func args kwargs r₁ loads all in
        let r₂ : Runtime p = record r₁ { task_queue = r₁.task_queue ++ some m ∷ [] } in
        let again =
          resends t o bytes (extract_dependencies args kwargs) (later.grows.producers o t prod)
            (later.grows.lineages t (bytes, extract_dependencies args kwargs) lin) sent in
        let (r', there) =
          w.arrives r₁.task_queue [] m o r₂ (Steps-IsLater p later.ready (next here again)).ready
            refl its in
        (
          r',
          rebuilds-done (suc n) o t bytes (extract_dependencies args kwargs) r r₁ r₂ r' loop sent
              there,
        )

    -- A chain of at most `n` missing tasks is rebuilt within `n + 1` nested calls: the call returns,
    -- whatever of it was lost, after steps of the runtime that leave the object in the store.
    pub reconstruct_object-total :
        (n o : ℕ) (r : Runtime p)
        → Ready p r
        → Recoverable p r n o
        → (r' : Runtime p) × (reconstruct_object p wait (suc n) o r ≡ done r') × Gives p o r r'
    unfolding reconstruct_object
    reconstruct_object-total n o r ready (stored there) =
        (r, rw (reconstruct_object, there) refl, (here, there))
    reconstruct_object-total (suc n) o r ready
          (rebuilt t bytes func args kwargs prod lin loads deps) =
        elim (Bool-cases (ObjectStore.contains o r.object_store)) [
          | inl there ↦ (r, rw (reconstruct_object, there) refl, (here, there))
          | inr missing ↦
              let (r', e) =
                rebuilds-total n o t bytes func args kwargs r ready (reconstruct_object-total n)
                  prod lin loads deps in
              let whole : reconstruct_object p wait (suc (suc n)) o r ≡ done r' =
                rw (reconstruct_object, missing, prod, lin) e in
              (r', whole, reconstruct_object-Gives wait w.runs (suc (suc n)) o r r' ready whole)
        ]
