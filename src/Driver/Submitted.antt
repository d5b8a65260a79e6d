-- ===== src/Driver/Submitted.antt =====
-- What a submission of python/nano_ray/driver.py promises: the meaning of the new object.
use nano_ray.Prelude.{ℕ, ◌+◌, ◌≡◌, refl, subst, some, true, elem}
use nano_ray.Prelude.Maybe.{>>=-eq-some}
use mathlib.Core.Option.{some-injective}
use nano_ray.Values.{Value, Items, Fields, Func}
use nano_ray.Ownership.Lookup.{register_task_lem}
use nano_ray.Dag.{extract_dependencies, resolve_args}
use nano_ray.Worker.{Outcome, returned, Platform, outcome, shown}
use nano_ray.Driver.{Runtime, or_none, enter_task, flush_ready_tasks, submit_task}
use nano_ray.Driver.Meaning.{Denotes, denotes, Denotes-Extends}
use nano_ray.Driver.Soundness.{Sound}
use nano_ray.Driver.Entry.{registered-Extends}
use nano_ray.Driver.Results.{flush-Grows}

module _ (p : Platform) where
  enter_task-Denotes :
      (func : Func) (args a : Items) (kwargs k : Fields) (g : ℕ → Value) (r : Runtime p)
      → Sound p r
      → ((d : ℕ) → elem d (extract_dependencies args kwargs) ≡ true → Denotes p r.ownership d (g d))
      → resolve_args (λ d. some (g d)) args kwargs ≡ some (a, k)
      → Denotes p
          (enter_task p func args kwargs r).1.ownership
          (enter_task p func args kwargs r).0
          (outcome p r.next_id func a k)
  unfolding enter_task
  enter_task-Denotes func args a kwargs k g r h deps resolved =
      let (status, result, producer, lineage) =
        register_task_lem r.next_id (r.next_id + 1) p.getpid (p.qualname func)
          (p.dumps_task func args kwargs) (or_none (extract_dependencies args kwargs))
          r.ownership in
      denotes g producer lineage (p.loads-dumps_task func args kwargs)
        (λ d e. Denotes-Extends p (registered-Extends p func args kwargs r h) (deps d e)) resolved
        refl

  -- In a sound runtime, the object of a submitted task is the value of the task's function at its
  -- arguments, with each reference replaced by what its object means.
  pub submit_task-Denotes :
      (func : Func) (args a : Items) (kwargs k : Fields) (g : ℕ → Value) (o : ℕ) (r r' : Runtime p)
      → Sound p r
      → ((d : ℕ) → elem d (extract_dependencies args kwargs) ≡ true → Denotes p r.ownership d (g d))
      → resolve_args (λ d. some (g d)) args kwargs ≡ some (a, k)
      → submit_task p func args kwargs r ≡ some (o, r')
      → Denotes p r'.ownership o (outcome p r.next_id func a k)
  unfolding submit_task
  submit_task-Denotes func args a kwargs k g o r r' h deps resolved e =
      let (new_id, entered) = enter_task p func args kwargs r in
      let (s, flush, same) = >>=-eq-some (flush_ready_tasks p entered) _ e in
      subst (λ (x : ℕ × Runtime p). Denotes p x.1.ownership x.0 (outcome p r.next_id func a k))
        (some-injective _ _ same)
        (Denotes-Extends p (flush-Grows p entered s flush)
          (enter_task-Denotes func args a kwargs k g r h deps resolved))

  -- The value can be pickled.
  abbrev pub Pickles : Value → Type 0
  Pickles v = (b : p.Bytes) × (p.dumps_value v ≡ returned b)

  shown_pickled :
      (t : ℕ) (v : Value) (o : Outcome Value) → Pickles v → o ≡ returned v → shown p t o ≡ v
  unfolding shown
  shown_pickled t v o (b, e) same = rw (same, shown, e) refl

  -- Where the function returns a value that can be pickled, the object means that value.
  pub submit_task-returned :
      (func : Func) (args a : Items) (kwargs k : Fields) (g : ℕ → Value) (o : ℕ) (v : Value)
      (r r' : Runtime p)
      → Sound p r
      → ((d : ℕ) → elem d (extract_dependencies args kwargs) ≡ true → Denotes p r.ownership d (g d))
      → resolve_args (λ d. some (g d)) args kwargs ≡ some (a, k)
      → p.call func a k ≡ returned v
      → Pickles v
      → submit_task p func args kwargs r ≡ some (o, r')
      → Denotes p r'.ownership o v
  unfolding outcome
  submit_task-returned func args a kwargs k g o v r r' h deps resolved runs pickles e =
      subst (Denotes p r'.ownership o) (shown_pickled r.next_id v (p.call func a k) pickles runs)
        (submit_task-Denotes func args a kwargs k g o r r' h deps resolved e)
