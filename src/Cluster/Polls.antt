-- ===== src/Cluster/Polls.antt =====
-- What a poll does to the head of a cluster of python/nano_ray, seen with one node.
use nano_ray.Prelude.{◌≡◌, sym, ◌∙◌, ap, subst, List, [], ◌∷◌, Option, none, some, All, All-append}
use nano_ray.Prelude.Maybe.{>>=-eq-some}
use mathlib.Core.Option.{some-injective}
use nano_ray.Values.{TaskSpec}
use nano_ray.ObjectStore
use nano_ray.Scheduler
use nano_ray.Scheduler.{Scheduler}
use nano_ray.Scheduler.Index.{pop_ready_task_first}
use nano_ray.Scheduler.Specs.{AllSpecs}
use nano_ray.Dag.{resolve_args}
use nano_ray.Worker.{Platform}
use nano_ray.Driver.Soundness.{Recorded, MessageOk, Sound, resolved-Denotes}
use nano_ray.Dashboard.{Clock}
use nano_ray.Head.{Head, Response, no_task, poll, poll_popped, prepare_task}
use nano_ray.Cluster.{WorkerNode, take_response}
use nano_ray.Cluster.Answers.{view}

module _ (p : Platform) (c : Clock) where
  pop_empty : (s : Scheduler) → s.ready_queue ≡ [] → Scheduler.pop_ready_task s ≡ (none, s)
  unfolding Scheduler.pop_ready_task
  pop_empty s e =
      ap
        (λ (q : List TaskSpec). elim q as (λ _. Option TaskSpec × Scheduler) [
          | [] ↦ (none, s)
          | spec ∷ rest ↦ (some spec, record s { ready_queue = rest })
        ])
        e

  abbrev pub Given : Head p c → Head p c → Response p c → Type 0
  Given h h' response =
      (h'.local_task_queue ≡ none)
      × ((n : WorkerNode p c)
          → Sound p (view p c h n)
          → Sound p (view p c h' n) × Sound p (view p c h' (take_response p c response n)))

  pub poll_ready :
      (ready : List TaskSpec) (h h' : Head p c) (response : Response p c)
      → h.scheduler.ready_queue ≡ ready
      → h.local_task_queue ≡ none
      → poll p c h ≡ some (response, h')
      → Given h h' response
  unfolding poll take_response prepare_task
  poll_ready [] h h' response empty idle e =
      let done : poll p c h ≡ some (no_task, h) =
        ap (λ (x : Option TaskSpec × Scheduler). poll_popped p c x.0 (record h { scheduler = x.1 }))
          (pop_empty h.scheduler empty) in
      let same : (no_task, h) ≡ (response, h') = some-injective _ _ (sym done ∙ e) in
      subst (λ (x : Response p c × Head p c). Given h x.1 x.0) same (idle, λ n ok. (ok, ok))
  poll_ready (spec ∷ specs) h h' response first idle e =
      let h₁ : Head p c = record h { scheduler = record h.scheduler { ready_queue = specs } } in
      let done : poll p c h ≡ poll_popped p c (some spec) h₁ =
        ap (λ (x : Option TaskSpec × Scheduler). poll_popped p c x.0 (record h { scheduler = x.1 }))
          (pop_ready_task_first h.scheduler spec specs first) in
      let (m, prepared, given) = >>=-eq-some (prepare_task p c spec h₁) _ (sym done ∙ e) in
      let ((a, k), resolved, sent) =
        >>=-eq-some (resolve_args (λ o. ObjectStore.get_now o h.object_store) spec.args spec.kwargs)
          _ prepared in
      subst (λ (x : Response p c × Head p c). Given h x.1 x.0) (some-injective _ _ given)
        (
          idle,
          λ n ok.
              let (mine, others) : All (Recorded p h.ownership) (spec ∷ specs) =
                subst (All (Recorded p h.ownership)) first ok.recorded.of_ready in
              let kept : AllSpecs (Recorded p h.ownership) h₁.scheduler = record {
                of_ready = others;
                of_pending = ok.recorded.of_pending;
              } in
              let right : MessageOk p h.ownership (some m) =
                subst (λ x. MessageOk p h.ownership (some x)) (some-injective _ _ sent)
                  (resolved-Denotes p h.ownership h.object_store spec.object_id spec.task_id _
                    mine.deps spec.func spec.args a spec.kwargs k ok.stored mine.produces
                    mine.lineage (p.loads-dumps_task spec.func spec.args spec.kwargs) resolved) in
              (
                record {
                  stored = ok.stored;
                  queued = ok.queued;
                  reported = ok.reported;
                  recorded = kept;
                  ids_used = ok.ids_used;
                  tasks_used = ok.tasks_used;
                },
                record {
                  stored = ok.stored;
                  queued =
                      All-append (MessageOk p h.ownership) n.task_queue (some m ∷ []) ok.queued
                        (right, tt);
                  reported = ok.reported;
                  recorded = kept;
                  ids_used = ok.ids_used;
                  tasks_used = ok.tasks_used;
                },
              ),
        )
