-- ===== src/Driver/Tracked.antt =====
-- No object of python/nano_ray/driver.py gets lost on the way: each one that a task has to give is
-- in the store or yet to come (see Driver.Flying).
use nano_ray.Prelude.{
  ℕ, ◌+◌, ◌≡◌, sym, ◌∙◌, ap, subst, List, [], ◌∷◌, ◌++◌, ◌||◌, Option, some, true, arith, ◌==◌,
  elem, discard, elem-discard, ==_iff, inl, inr, Bool-cases,
}
use nano_ray.Prelude.Maybe.{>>=-eq-some}
use nano_ray.Prelude.Bags.{any, any-append, any-Perm}
use nano_ray.Prelude.Dict.{lookup, get_field}
use mathlib.Core.Option.{some-injective}
use Prim.Native.String.{String}
use nano_ray.Values.{Value, task_error, Items, Fields, Func}
use nano_ray.ObjectStore
use nano_ray.ObjectStore.Laws.{contains-put}
use nano_ray.Ownership
use nano_ray.Ownership.{get_producer_task}
use nano_ray.Ownership.Lookup.{register_task_other, step_lineage}
use nano_ray.Ownership.Calls
use nano_ray.Scheduler
use nano_ray.Scheduler.{Pending, on_object_ready}
use nano_ray.Scheduler.Index.{on_object_ready_before, step-IsIndexed}
use nano_ray.Scheduler.Run.{submits as submission, step}
use nano_ray.Scheduler.Conserve.{on_object_ready-perm}
use nano_ray.Worker.{Platform, Message, Report, work, Outcome-cases}
use nano_ray.Driver.{
  Runtime, init, or_none, enter_task, flush_ready_tasks, submit_task, accept, reject,
}
use nano_ray.Driver.Flush.{flush_ready_tasks_sent, spec_deps}
use nano_ray.Driver.Scheduling.{retrigger_before, submit_before, new_waits}
use nano_ray.Driver.Safety.{Settled, task_spec, collect_returned, collect_raised}
use nano_ray.Driver.Soundness.{Sound}
use nano_ray.Driver.System.{Steps, here, next, Step, submits, finishes, collects, resends}
use nano_ray.Driver.Run.{send_again_lem}
use nano_ray.Driver.Recoverable.{Ready, Steps-IsLater, run-Ready}
use nano_ray.Driver.Flying.{gives, sends, reports, flying, flying-flushed, flying-enter}

module _ (p : Platform) where
  pub record Tracked (r : Runtime p) : Type 0 where
    pub placed :
        (o t : ℕ)
        → get_producer_task o r.ownership ≡ some t
        → (ObjectStore.contains o r.object_store || flying p o r) ≡ true
    -- A task waits for its own arguments alone.
    pub needed :
        (t : ℕ) (q : Pending)
        → lookup t r.scheduler.pending_tasks ≡ some q
        → (d : ℕ) → elem d q.unresolved ≡ true
        → elem d (spec_deps q.spec) ≡ true

  flush-Tracked : (r r' : Runtime p) → Tracked r → flush_ready_tasks p r ≡ some r' → Tracked r'
  flush-Tracked r r' h e =
      let (sent, ok, same) = flush_ready_tasks_sent p r r' e in
      subst Tracked (sym same) (record {
        placed = λ o t prod. rw (flying-flushed p o sent r ok) (h.placed o t prod);
        needed = h.needed;
      })

  enter-Tracked :
      (func : Func) (args : Items) (kwargs : Fields) (r : Runtime p)
      → Sound p r
      → Settled p r
      → Tracked r
      → Tracked (enter_task p func args kwargs r).1
  unfolding enter_task step
  enter-Tracked func args kwargs r sound settled h =
      let spec = task_spec p func args kwargs r in
      let ds = spec_deps spec in
      let inv = settled.scheduled in
      record {
        placed = λ o t prod. elim (Bool-cases (o == r.next_id + 1)) [
          | inl new ↦
              ground (arith, flying-enter p o func args kwargs r sound inv.indexed inv.unique)
          | inr other ↦
              let old : get_producer_task o r.ownership ≡ some t =
                sym
                  (register_task_other r.next_id (r.next_id + 1) p.getpid (p.qualname func)
                    (p.dumps_task func args kwargs) (or_none ds) r.ownership (r.next_id + 1) o
                    (λ x. ground arith) (λ x. ground (arith, ==_iff o (r.next_id + 1)))).1
                ∙ prod in
              ground (
                arith,
                flying-enter p o func args kwargs r sound inv.indexed inv.unique,
                h.placed o t old,
              )
        ];
        needed = λ t q' e d left.
            let entered = step-IsIndexed r.scheduler (submission spec (or_none ds)) inv.indexed in
            let (q, found, w) = retrigger_before r.object_store ds t _ q' entered e in
            elim (submit_before spec ds r.scheduler t q found) [
              | inl old ↦
                  subst (λ x. elem d (spec_deps x) ≡ true) (sym w.same)
                    (h.needed t q old d (w.waited d left))
              | inr new ↦
                  subst (λ x. elem d (spec_deps x) ≡ true) (sym w.same)
                    (sym (new_waits d q spec new) ∙ w.waited d left)
            ];
      }

  finish-Tracked :
      (before after : List (Option (Message p))) (m : Message p) (r : Runtime p)
      → r.task_queue ≡ before ++ some m ∷ after
      → Tracked r
      → Tracked (record r {
        task_queue = before ++ after;
        result_queue = r.result_queue ++ work p m ∷ [];
      })
  unfolding work flying any
  finish-Tracked before after m r e h = record {
    placed = λ o t prod. ground (
      arith,
      h.placed o t prod,
      ap (λ x. any x (sends p o)) e,
      any-append before (some m ∷ after) (sends p o),
      any-append before after (sends p o),
      any-append r.result_queue (work p m ∷ []) (reports p o),
    );
    needed = h.needed;
  }

  -- The report at the head of the queue.
  flying-report :
      (o : ℕ) (report : Report p) (rest : List (Report p)) (r : Runtime p)
      → r.result_queue ≡ report ∷ rest
      → flying p o r ≡ ((o == report.object_id) || flying p o (record r { result_queue = rest }))
  unfolding flying any
  flying-report o report rest r e = ground (arith, ap (λ x. any x (reports p o)) e)

  accept-Tracked :
      (report : Report p) (rest : List (Report p)) (v : Value) (r : Runtime p)
      → r.result_queue ≡ report ∷ rest
      → Settled p r
      → Tracked r
      → Tracked (accept p report.task_id report.object_id v (record r { result_queue = rest }))
  unfolding accept flying Calls.step
  accept-Tracked report rest v r e settled h = record {
    placed = λ o t prod. ground (
      arith,
      h.placed o t (sym (step_lineage r.ownership (Calls.finishes report.task_id) t o).1 ∙ prod),
      flying-report o report rest r e,
      contains-put report.object_id v r.object_store o,
      any-Perm (gives o)
          (on_object_ready-perm report.object_id r.scheduler settled.scheduled.unique),
    );
    needed = λ t q' found d left.
        let (q, before, same) =
          on_object_ready_before report.object_id t r.scheduler q' settled.scheduled.indexed
            found in
        let waited : elem d (discard report.object_id q.unresolved) ≡ true =
          subst (λ x. elem d x ≡ true) (ap (λ (x : Pending). x.unresolved) same) left in
        subst (λ (x : Pending). elem d (spec_deps x.spec) ≡ true) (sym same)
          (h.needed t q before d (ground (arith, elem-discard d report.object_id q.unresolved)));
  }

  reject-Tracked :
      (report : Report p) (rest : List (Report p)) (msg : String) (r : Runtime p)
      → r.result_queue ≡ report ∷ rest
      → Tracked r
      → Tracked (reject p report.task_id report.object_id msg (record r { result_queue = rest }))
  unfolding reject flying Calls.step
  reject-Tracked report rest msg r e h = record {
    placed = λ o t prod. ground (
      arith,
      h.placed o t (sym (step_lineage r.ownership (Calls.fails report.task_id msg) t o).1 ∙ prod),
      flying-report o report rest r e,
      contains-put report.object_id (task_error report.task_id msg) r.object_store o,
    );
    needed = h.needed;
  }

  sent-Tracked :
      (m : Message p) (r : Runtime p)
      → Tracked r
      → Tracked (record r { task_queue = r.task_queue ++ some m ∷ [] })
  unfolding flying
  sent-Tracked m r h = record {
    placed = λ o t found.
        ground (arith, h.placed o t found, any-append r.task_queue (some m ∷ []) (sends p o));
    needed = h.needed;
  }

  pub Step-Tracked :
      (r r' : Runtime p) → Sound p r → Settled p r → Tracked r → Step p r r' → Tracked r'
  unfolding submit_task flying
  Step-Tracked r r' sound settled h (submits func args kwargs o e) =
      let (s, flush, same) =
        >>=-eq-some (flush_ready_tasks p (enter_task p func args kwargs r).1) _ e in
      let state : s ≡ r' = ap (λ (x : ℕ × Runtime p). x.1) (some-injective _ _ same) in
      subst Tracked state
        (flush-Tracked _ s (enter-Tracked func args kwargs r sound settled h) flush)
  Step-Tracked r r' sound settled h (finishes before after m e same) =
      subst Tracked (sym same) (finish-Tracked before after m r e h)
  Step-Tracked r r' sound settled h (collects report rest e c) =
      elim (Outcome-cases report.result) [
        | inl (b, f) ↦
            flush-Tracked _ r' (accept-Tracked report rest (p.loads_value b) r e settled h)
              (sym (collect_returned p report b _ f).0 ∙ c)
        | inr (m, f) ↦
            subst Tracked (some-injective _ _ (sym (collect_raised p report m _ f).0 ∙ c))
              (reject-Tracked report rest m r e h)
      ]
  Step-Tracked r r' sound settled h (resends t o bytes deps prod lin e) =
      subst Tracked (sym (send_again_lem p t o bytes r r' e).sent) (sent-Tracked _ r h)

  init-Tracked : (n : ℕ) → Tracked (init p n)
  unfolding init Ownership.init Scheduler.init get_producer_task lookup get_field
  init-Tracked n = record {
    placed = λ o t e. absurd (ground arith);
    needed = λ t q e d x. absurd (ground arith);
  }

  -- In every run without evictions from a fresh runtime, each object that a task has to give is in
  -- the store, or held by the scheduler, in the task queue or reported; and a task waits for its own
  -- arguments alone.
  pub run-Tracked : (n : ℕ) (r : Runtime p) → Steps p (init p n) r → Tracked r
  run-Tracked n r here = init-Tracked n
  run-Tracked n r (next {r' = r₁} run s) =
      let ready = run-Ready p n r₁ run in
      Step-Tracked r₁ r ready.sound ready.settled (run-Tracked n r₁ run) s

  -- Whatever is done, the tracking goes on.
  pub Steps-Tracked : (r r' : Runtime p) → Ready p r → Tracked r → Steps p r r' → Tracked r'
  Steps-Tracked r r' ready h here = h
  Steps-Tracked r r' ready h (next {r' = r₁} run s) =
      let later = (Steps-IsLater p ready run).ready in
      Step-Tracked r₁ r' later.sound later.settled (Steps-Tracked r r₁ ready h run) s
