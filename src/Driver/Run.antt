-- ===== src/Driver/Run.antt =====
-- The values in a run of python/nano_ray/driver.py, against the meaning of their objects.
use nano_ray.Prelude.{List, ℕ, ◌≡◌, sym, ap, subst, [], ◌∷◌, ◌++◌, some, arith, All, All-append}
use nano_ray.Prelude.Maybe.{>>=-eq-some}
use mathlib.Core.Option.{some-injective}
use nano_ray.ObjectStore
use nano_ray.ObjectStore.{ObjectStore}
use nano_ray.Ownership
use nano_ray.Ownership.{
  OwnershipTable, register_task, get_producer_task, get_task_lineage, task_finished, task_failed,
}
use nano_ray.Scheduler.{Scheduler}
use nano_ray.Scheduler
use nano_ray.Dag.{resolve_args}
use nano_ray.Worker.{returned, Platform, Message}
use nano_ray.Answers.{done, >>=-eq-done, or_blocked, or_blocked-eq-done, done-injective}
use nano_ray.Values.{Func, Items, Fields}
use nano_ray.Driver.{Runtime, init, enter_task, flush_ready_tasks, submit_task}
use nano_ray.Driver.Recovery.{unpickled, unpickled-eq-done, send_again}
use nano_ray.Driver.Soundness.{MessageOk, ReportOk, Sound, resolved-Denotes}
use nano_ray.Driver.System.{
  Step, submits, finishes, collects, resends, evicts, Lossy, lossless, steps, loses,
}
use nano_ray.Prelude.Dict.{get_field}
use nano_ray.Driver.Preserved.{flush-Sound, collect-Sound, evict-Sound, finish-Sound}
use nano_ray.Driver.Entry.{enter-Sound}

module _ (p : Platform) where
  abbrev Table : Type 0
  Table = OwnershipTable p.Bytes

  -- What sending a task again adds to the task queue.
  pub record IsSentAgain (t o : ℕ) (bytes : p.Bytes) (r r' : Runtime p) : Type 0 where
    pub func : Func
    pub args : Items
    pub kwargs : Fields
    pub a : Items
    pub k : Fields
    pub loads : p.loads_task bytes ≡ returned (func, args, kwargs)
    pub resolved :
        resolve_args (λ d. ObjectStore.get_now d r.object_store) args kwargs ≡ some (a, k)
    pub sent : r' ≡ record r {
      task_queue =
          r.task_queue
          ++ some (record { task_id = t; object_id = o; payload = p.dumps_task func a k }) ∷ [];
    }

  pub send_again_lem :
      (t o : ℕ) (bytes : p.Bytes) (r r' : Runtime p)
      → send_again p t o bytes r ≡ done r'
      → IsSentAgain t o bytes r r'
  unfolding send_again
  send_again_lem t o bytes r r' e =
      let ((func, args, kwargs), loads, e₁) = >>=-eq-done (unpickled (p.loads_task bytes)) _ e in
      let ((a, k), resolved, e₂) =
        >>=-eq-done
          (or_blocked (resolve_args (λ d. ObjectStore.get_now d r.object_store) args kwargs)) _
          e₁ in
      record {
        func = func;
        args = args;
        kwargs = kwargs;
        a = a;
        k = k;
        loads = unpickled-eq-done (p.loads_task bytes) loads;
        resolved = or_blocked-eq-done _ (a, k) resolved;
        sent = sym (done-injective _ _ e₂);
      }

  send_again-Sound :
      (t o : ℕ) (bytes : p.Bytes) (deps : List ℕ) (r r' : Runtime p)
      → Sound p r
      → get_producer_task o r.ownership ≡ some t
      → get_task_lineage t r.ownership ≡ some (bytes, deps)
      → send_again p t o bytes r ≡ done r'
      → Sound p r'
  send_again-Sound t o bytes deps r r' h prod lin e =
      let s = send_again_lem t o bytes r r' e in
      let m : Message p = record {
        task_id = t;
        object_id = o;
        payload = p.dumps_task s.func s.a s.k;
      } in
      let ok : MessageOk p r.ownership (some m) =
        resolved-Denotes p r.ownership r.object_store o t bytes deps s.func s.args s.a s.kwargs s.k
          h.stored prod lin s.loads s.resolved in
      subst (Sound p) (sym s.sent) (record {
        stored = h.stored;
        queued = All-append (MessageOk p r.ownership) r.task_queue (some m ∷ []) h.queued (ok, tt);
        reported = h.reported;
        recorded = h.recorded;
        ids_used = h.ids_used;
        tasks_used = h.tasks_used;
      })

  pub Step-Sound : (r r' : Runtime p) → Sound p r → Step p r r' → Sound p r'
  unfolding submit_task
  Step-Sound r r' h (submits func args kwargs o e) =
      let (s, flush, same) =
        >>=-eq-some (flush_ready_tasks p (enter_task p func args kwargs r).1) _ e in
      let state : s ≡ r' = ap (λ (x : ℕ × Runtime p). x.1) (some-injective _ _ same) in
      subst (Sound p) state (flush-Sound p _ s (enter-Sound p func args kwargs r h) flush)
  Step-Sound r r' h (finishes before after m e same) =
      subst (Sound p) (sym same) (finish-Sound p before after m r e h)
  Step-Sound r r' h (collects report rest e c) =
      let queue : All (ReportOk p r.ownership) (report ∷ rest) =
        subst (All (ReportOk p r.ownership)) e h.reported in
      collect-Sound p report (record r { result_queue = rest }) r'
        (record {
          stored = h.stored;
          queued = h.queued;
          reported = queue.1;
          recorded = h.recorded;
          ids_used = h.ids_used;
          tasks_used = h.tasks_used;
        })
        queue.0 c
  Step-Sound r r' h (resends t o bytes deps prod lin e) =
      send_again-Sound t o bytes deps r r' h prod lin e

  -- In every run from a fresh runtime, tasks sent twice and objects lost included, everything that
  -- is stored, sent and reported is what the table says of its object.
  pub run-Sound : (n : ℕ) (r : Runtime p) → Lossy p (init p n) r → Sound p r
  unfolding init Ownership.init ObjectStore.init Scheduler.init get_producer_task get_task_lineage
      get_field
  run-Sound n r lossless = record {
    stored = λ o v e. absurd (ground arith);
    queued = tt;
    reported = tt;
    recorded = record { of_ready = tt; of_pending = λ t q e. absurd (ground arith) };
    ids_used = λ o t e. absurd (ground arith);
    tasks_used = λ t l e. absurd (ground arith);
  }
  run-Sound n r (steps {r'} run s) = Step-Sound r' r (run-Sound n r' run) s
  run-Sound n r (loses {r'} run (evicts o e)) =
      subst (Sound p) (sym e) (evict-Sound p o r' (run-Sound n r' run))
