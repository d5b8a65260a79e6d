-- ===== src/Driver/Results.antt =====
-- What the users of a runtime of python/nano_ray/driver.py can rely on for the values of objects,
-- whatever is evicted and executed again.
use nano_ray.Prelude.{ℕ, ◌≡◌, refl, true, sym, ◌∙◌, ap, subst, some, inl, inr}
use nano_ray.Prelude.Maybe.{>>=-eq-some}
use mathlib.Core.Option.{some-injective}
use nano_ray.Values.{Value}
use nano_ray.ObjectStore
use nano_ray.ObjectStore.Laws.{content, contains-put_kept}
use nano_ray.Ownership.{OwnershipTable}
use nano_ray.Ownership.Calls
use nano_ray.Scheduler
use nano_ray.Prelude.{arith}
use nano_ray.Prelude.Dict.{lookup}
use nano_ray.Worker.{Platform, Outcome-cases}
use nano_ray.Driver.{
  Runtime, init, enter_task, flush_ready_tasks, submit_task, accept, reject, evict_object,
}
use nano_ray.Driver.Flush.{flush_ready_tasks_sent}
use nano_ray.Driver.Meaning.{Denotes, Extends, Denotes-Extends, Denotes-unique}
use nano_ray.Driver.Soundness.{Sound}
use nano_ray.Driver.Preserved.{called-Extends}
use nano_ray.Driver.Entry.{registered-Extends}
use nano_ray.Driver.Run.{Step-Sound, send_again_lem, run-Sound}
use nano_ray.Driver.Safety.{
  collect_returned, collect_raised, Settled, submit_task-Settled, collect-Settled,
}
use nano_ray.Driver.System.{
  Step, submits, finishes, collects, resends, Steps, here, next, evicts, Lossy, lossless, steps,
  loses,
}

module _ (p : Platform) where
  -- The table of `r'` keeps what the table of `r` records.
  abbrev pub Grows : Runtime p → Runtime p → Type 0
  Grows r r' = Extends p r.ownership r'.ownership

  pub Grows-refl : (r : Runtime p) → Grows r r
  Grows-refl r = record { producers = λ o t e. e; lineages = λ t l e. e }

  pub Extends-trans :
      {a b c : OwnershipTable p.Bytes} → Extends p a b → Extends p b c → Extends p a c
  Extends-trans g h = record {
    producers = λ o t e. h.producers o t (g.producers o t e);
    lineages = λ t l e. h.lineages t l (g.lineages t l e);
  }

  pub flush-Grows : (r r' : Runtime p) → flush_ready_tasks p r ≡ some r' → Grows r r'
  flush-Grows r r' e =
      let (sent, ok, same) = flush_ready_tasks_sent p r r' e in
      subst (Grows r) (sym same) (Grows-refl r)

  pub Step-Grows : (r r' : Runtime p) → Sound p r → Step p r r' → Grows r r'
  unfolding submit_task accept reject Calls.step
  Step-Grows r r' h (submits func args kwargs o e) =
      let (s, flush, same) =
        >>=-eq-some (flush_ready_tasks p (enter_task p func args kwargs r).1) _ e in
      let state : s ≡ r' = ap (λ (x : ℕ × Runtime p). x.1) (some-injective _ _ same) in
      subst (Grows r) state
        (Extends-trans (registered-Extends p func args kwargs r h) (flush-Grows _ s flush))
  Step-Grows r r' h (finishes before after m e same) = subst (Grows r) (sym same) (Grows-refl r)
  Step-Grows r r' h (collects report rest e c) = elim (Outcome-cases report.result) [
    | inl (b, f) ↦
        Extends-trans (called-Extends p r.ownership (Calls.finishes report.task_id))
          (flush-Grows _ r' (sym (collect_returned p report b _ f).0 ∙ c))
    | inr (m, f) ↦
        subst (Grows r) (some-injective _ _ (sym (collect_raised p report m _ f).0 ∙ c))
          (called-Extends p r.ownership (Calls.fails report.task_id m))
  ]
  Step-Grows r r' h (resends t o bytes deps prod lin e) =
      subst (Grows r) (sym (send_again_lem p t o bytes r r' e).sent) (Grows-refl r)

  run-Grows :
      (n : ℕ) (r r' : Runtime p)
      → Lossy p (init p n) r
      → Lossy p r r'
      → Lossy p (init p n) r' × Grows r r'
  unfolding evict_object
  run-Grows n r _ run lossless = (run, Grows-refl r)
  run-Grows n r r'' run (steps {r'} more s) =
      let (run', g) = run-Grows n r r' run more in
      (steps run' s, Extends-trans g (Step-Grows r' r'' (run-Sound p n r' run') s))
  run-Grows n r r'' run (loses {r'} more (evicts o e)) =
      let (run', g) = run-Grows n r r' run more in
      (loses run' (evicts o e), Extends-trans g (subst (Grows r') (sym e) (Grows-refl r')))

  pub Steps-Grows : {r r' : Runtime p} → Sound p r → Steps p r r' → Sound p r' × Grows r r'
  Steps-Grows {r} h here = (h, Grows-refl r)
  Steps-Grows {r' = r₂} h (next {r' = r₁} run s) =
      let (sound, grows) = Steps-Grows h run in
      (Step-Sound p r₁ r₂ sound s, Extends-trans grows (Step-Grows r₁ r₂ sound s))

  pub Steps-Lossy : {r r' : Runtime p} → Steps p r r' → Lossy p r r'
  Steps-Lossy here = lossless
  Steps-Lossy (next run s) = steps (Steps-Lossy run) s

  init-Settled : (n : ℕ) → Settled p (init p n)
  unfolding init Scheduler.init lookup
  init-Settled n = record {
    scheduled = record {
      indexed = λ t q e. absurd (ground arith);
      unique = tt;
      covered = record {
        pending_covered = λ t q e d h u. absurd (ground arith);
        ready_covered = tt;
      };
      awaits = λ t q e d h. absurd (ground arith);
    };
    sent_all = refl;
  }

  -- A step leaves nothing ready behind, and stored objects stay.
  pub record IsStep (r r' : Runtime p) : Type 0 where
    pub settled : Settled p r'
    pub kept :
        (d : ℕ)
        → ObjectStore.contains d r.object_store ≡ true
        → ObjectStore.contains d r'.object_store ≡ true

  pub Step-Settled : (r r' : Runtime p) → Settled p r → Step p r r' → IsStep r r'
  unfolding submit_task
  Step-Settled r r' h (submits func args kwargs o e) =
      let (s, done, ok, same) = submit_task-Settled p func args kwargs r h.scheduled in
      let state : s ≡ r' = ap (λ (x : ℕ × Runtime p). x.1) (some-injective _ _ (sym done ∙ e)) in
      subst (IsStep r) state (record { settled = ok; kept = λ d there. rw same there })
  Step-Settled r r' h (finishes before after m e same) = subst (IsStep r) (sym same) (record {
    settled = record { scheduled = h.scheduled; sent_all = h.sent_all };
    kept = λ d there. there;
  })
  Step-Settled r r' h (collects report rest e c) =
      let (s, done, ok, same) =
        collect-Settled p report (record r { result_queue = rest })
          (record { scheduled = h.scheduled; sent_all = h.sent_all }) in
      subst (IsStep r) (some-injective _ _ (sym done ∙ c)) (record {
        settled = ok;
        kept = λ d there. rw same (contains-put_kept report.object_id _ r.object_store d there);
      })
  Step-Settled r r' h (resends t o bytes deps prod lin e) =
      subst (IsStep r) (sym (send_again_lem p t o bytes r r' e).sent) (record {
        settled = record { scheduled = h.scheduled; sent_all = h.sent_all };
        kept = λ d there. there;
      })

  -- In every run without evictions from a fresh runtime the scheduler stays in step with the store,
  -- and its ready queue is empty.
  pub run-Settled : (n : ℕ) (r : Runtime p) → Steps p (init p n) r → Settled p r
  run-Settled n r here = init-Settled n
  run-Settled n r (next {r'} run s) = (Step-Settled r' r (run-Settled n r' run) s).settled

  -- In every run from a fresh runtime, with evictions and repeated executions, a stored value is
  -- the value of its task's function at the values of the objects that the task was given, as the
  -- ownership table records them.
  pub stored-Denotes :
      (n : ℕ) (r : Runtime p) (o : ℕ) (v : Value)
      → Lossy p (init p n) r
      → content r.object_store o ≡ some v
      → Denotes p r.ownership o v
  stored-Denotes n r o v run e = (run-Sound p n r run).stored o v e

  -- In a run from a fresh runtime, with evictions and repeated executions, an object has the same
  -- value at every two moments at which it is stored: losing it and executing its task again does
  -- not change it.
  pub stored_again :
      (n : ℕ) (r r' : Runtime p) (o : ℕ) (v v' : Value)
      → Lossy p (init p n) r
      → Lossy p r r'
      → content r.object_store o ≡ some v
      → content r'.object_store o ≡ some v'
      → v ≡ v'
  stored_again n r r' o v v' run more e e' =
      let (run', g) = run-Grows n r r' run more in
      Denotes-unique p (Denotes-Extends p g (stored-Denotes n r o v run e))
        (stored-Denotes n r' o v' run' e')
