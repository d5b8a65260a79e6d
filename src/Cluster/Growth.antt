-- ===== src/Cluster/Growth.antt =====
-- What a request leaves to the head of a cluster of python/nano_ray (head.py): its records and its
-- stored objects.
use nano_ray.Prelude.{ℕ, ◌≡◌, refl, sym, ◌∙◌, ap, subst, Option, none, some, true, inl, inr}
use nano_ray.Prelude.Maybe.{◌>>=◌, >>=-eq-some}
use mathlib.Core.Option.{some-injective}
use nano_ray.Values.{task_error, TaskSpec, Items, Fields, Func}
use nano_ray.ObjectStore
use nano_ray.ObjectStore.Laws.{contains-put_kept}
use nano_ray.Ownership.Calls
use nano_ray.Scheduler
use nano_ray.Worker.{Platform, Report, Outcome-cases}
use nano_ray.Driver
use nano_ray.Driver.Meaning.{Extends}
use nano_ray.Driver.Soundness.{Sound}
use nano_ray.Driver.Preserved.{called-Extends}
use nano_ray.Driver.Entry.{registered-Extends}
use nano_ray.Driver.Results.{Extends-trans}
use nano_ray.Dashboard
use nano_ray.Dashboard.{Clock}
use nano_ray.Head
use nano_ray.Head.{
  Head, Request, register_worker, submits, get_object, contains_object, poll_task, task_result,
  unknown, Response, dispatch, disconnect, flush_ready_tasks, enter_task, submit_task,
  handle_task_result, accept, poll, poll_popped, prepare_task,
}
use nano_ray.Cluster.{WorkerNode}
use nano_ray.Cluster.Answers.{view, flush_idle}

module _ (p : Platform) (c : Clock) where
  -- The table of the second head keeps what the table of the first records, and its store what is
  -- stored.
  pub record HeadGrows (h h' : Head p c) : Type 0 where
    pub recorded : Extends p h.ownership h'.ownership
    pub kept :
        (d : ℕ)
        → ObjectStore.contains d h.object_store ≡ true
        → ObjectStore.contains d h'.object_store ≡ true

  pub HeadGrows-refl : (h : Head p c) → HeadGrows h h
  HeadGrows-refl h = record {
    recorded = record { producers = λ o t e. e; lineages = λ t l e. e };
    kept = λ d there. there;
  }

  -- Heads with one store and one table.
  pub same-HeadGrows :
      (h h' : Head p c)
      → h.object_store ≡ h'.object_store
      → h.ownership ≡ h'.ownership
      → HeadGrows h h'
  same-HeadGrows h h' store table = record {
    recorded = subst (Extends p h.ownership) table (HeadGrows-refl h).recorded;
    kept = λ d there. subst (λ x. ObjectStore.contains d x ≡ true) store there;
  }

  pub HeadGrows-trans : {g h k : Head p c} → HeadGrows g h → HeadGrows h k → HeadGrows g k
  HeadGrows-trans a b = record {
    recorded = Extends-trans p a.recorded b.recorded;
    kept = λ d there. b.kept d (a.kept d there);
  }

  -- What follows an answer that leaves the table as it is.
  answered-HeadGrows :
      (h h₁ h' : Head p c) (response₁ response : Response p c)
      → HeadGrows h h₁
      → ◌≡◌ {A = Option (Response p c × Head p c)} (some (response₁, h₁)) (some (response, h'))
      → HeadGrows h h'
  answered-HeadGrows h h₁ h' response₁ response g e =
      subst (HeadGrows h) (ap (λ (x : Response p c × Head p c). x.1) (some-injective _ _ e)) g

  submit-HeadGrows :
      (now : c.Time) (func : Func) (args : Items) (kwargs : Fields) (h h' : Head p c) (o : ℕ)
      (n : WorkerNode p c)
      → h.local_task_queue ≡ none
      → Sound p (view p c h n)
      → submit_task p c now func args kwargs h ≡ some (o, h')
      → HeadGrows h h'
  unfolding submit_task enter_task Driver.enter_task
  submit-HeadGrows now func args kwargs h h' o n idle ok e =
      let entered : Head p c = (enter_task p c func args kwargs h).1 in
      let (h₁, flushed, same) = >>=-eq-some (flush_ready_tasks p c entered) _ e in
      let left : entered ≡ h₁ = some-injective _ _ (sym (flush_idle p c entered idle) ∙ flushed) in
      let final : Head.on_metrics p c _ h₁ ≡ h' =
        ap (λ (x : ℕ × Head p c). x.1) (some-injective _ _ same) in
      subst (HeadGrows h) (ap (Head.on_metrics p c _) left ∙ final) (record {
        recorded = registered-Extends p func args kwargs (view p c h n) ok;
        kept = λ d there. there;
      })

  result-HeadGrows :
      (now after : c.Time) (report : Report p) (h h' : Head p c)
      → h.local_task_queue ≡ none
      → handle_task_result p c now after report h ≡ some h'
      → HeadGrows h h'
  unfolding handle_task_result accept Head.reject Calls.step
  result-HeadGrows now after report h h' idle e = elim (Outcome-cases report.result) [
    | inl (b, f) ↦
        let accepted : Head p c = accept p c report.task_id report.object_id (p.loads_value b) h in
        let done : handle_task_result p c now after report h ≡ (
            flush_ready_tasks p c accepted >>= λ x.
            some (Head.completed p c now after report.task_id x)) =
          rw (f, handle_task_result) refl in
        let (h₁, flushed, same) = >>=-eq-some (flush_ready_tasks p c accepted) _ (sym done ∙ e) in
        let left : accepted ≡ h₁ =
          some-injective _ _ (sym (flush_idle p c accepted idle) ∙ flushed) in
        subst (HeadGrows h)
          (ap (Head.completed p c now after report.task_id) left ∙ some-injective _ _ same)
          (record {
            recorded = called-Extends p h.ownership (Calls.finishes report.task_id);
            kept = contains-put_kept report.object_id (p.loads_value b) h.object_store;
          })
    | inr (m, f) ↦
        let rejected : Head p c = Head.reject p c report.task_id report.object_id m h in
        let done : handle_task_result p c now after report h
            ≡ some (Head.on_metrics p c (Dashboard.on_task_failed c report.task_id) rejected) =
          rw (f, handle_task_result) refl in
        subst (HeadGrows h) (some-injective _ _ (sym done ∙ e)) (record {
          recorded = called-Extends p h.ownership (Calls.fails report.task_id m);
          kept = contains-put_kept report.object_id (task_error report.task_id m) h.object_store;
        })
  ]

  popped-HeadGrows :
      (popped : Option TaskSpec) (h h' : Head p c) (response : Response p c)
      → poll_popped p c popped h ≡ some (response, h')
      → HeadGrows h h'
  popped-HeadGrows none h h' response e = answered-HeadGrows h h h' _ response (HeadGrows-refl h) e
  popped-HeadGrows (some spec) h h' response e =
      let (m, prepared, given) = >>=-eq-some (prepare_task p c spec h) _ e in
      answered-HeadGrows h h h' _ response (HeadGrows-refl h) given

  -- Every request leaves what the table records.
  pub dispatch-HeadGrows :
      (now after : c.Time) (request : Request p c) (conn : ℕ) (response : Response p c)
      (h h' : Head p c) (n : WorkerNode p c)
      → h.local_task_queue ≡ none
      → Sound p (view p c h n)
      → dispatch p c now after request conn h ≡ some (response, h')
      → HeadGrows h h'
  unfolding dispatch poll
  dispatch-HeadGrows now after register_worker conn response h h' n idle ok e =
      answered-HeadGrows h _ h' _ response (same-HeadGrows h _ refl refl) e
  dispatch-HeadGrows now after (submits func args kwargs) conn response h h' n idle ok e =
      let ((o, h₁), done, same) = >>=-eq-some (submit_task p c now func args kwargs h) _ e in
      answered-HeadGrows h h₁ h' _ response
        (submit-HeadGrows now func args kwargs h h₁ o n idle ok done) same
  dispatch-HeadGrows now after (get_object o) conn response h h' n idle ok e =
      let (v, found, same) = >>=-eq-some (ObjectStore.get_now o h.object_store) _ e in
      answered-HeadGrows h h h' _ response (HeadGrows-refl h) same
  dispatch-HeadGrows now after (contains_object o) conn response h h' n idle ok e =
      answered-HeadGrows h h h' _ response (HeadGrows-refl h) e
  dispatch-HeadGrows now after poll_task conn response h h' n idle ok e =
      let (popped, scheduler') = Scheduler.pop_ready_task h.scheduler in
      let h₁ : Head p c = record h { scheduler = scheduler' } in
      HeadGrows-trans (same-HeadGrows h h₁ refl refl) (popped-HeadGrows popped h₁ h' response e)
  dispatch-HeadGrows now after (task_result report) conn response h h' n idle ok e =
      let (h₁, done, same) = >>=-eq-some (handle_task_result p c now after report h) _ e in
      answered-HeadGrows h h₁ h' _ response (result-HeadGrows now after report h h₁ idle done) same
  dispatch-HeadGrows now after (unknown cmd) conn response h h' n idle ok e =
      answered-HeadGrows h h h' _ response (HeadGrows-refl h) e
