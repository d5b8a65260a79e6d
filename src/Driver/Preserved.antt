-- ===== src/Driver/Preserved.antt =====
-- What the collector, the workers and evictions of python/nano_ray/driver.py do to a sound runtime.
use nano_ray.Prelude.{
  ℕ, ◌≡◌, sym, ◌∙◌, subst, List, [], ◌∷◌, ◌++◌, Option, none, some, arith, ◌==◌, inl, inr,
  Bool-cases, All, All-append, All-map, All-append-left, All-append-right, ==_iff,
}
use mathlib.Core.Option.{some-injective}
use nano_ray.Values.{Value, task_error, TaskSpec}
use nano_ray.ObjectStore
use nano_ray.ObjectStore.{ObjectStore}
use nano_ray.ObjectStore.Laws.{content-put, content-delete}
use nano_ray.Ownership.{OwnershipTable}
use nano_ray.Ownership.Lookup.{step_lineage}
use nano_ray.Ownership.Calls
use nano_ray.Scheduler.{Scheduler}
use nano_ray.Scheduler
use nano_ray.Scheduler.Specs.{AllSpecs, on_object_ready-AllSpecs}
use nano_ray.Worker.{Platform, Message, Report, work, Outcome-cases}
use nano_ray.Driver.{Runtime, flush_ready_tasks, accept, reject, collect, evict_object}
use nano_ray.Driver.Flush.{AllSent, none_sent, one_sent, flush_ready_tasks_sent}
use nano_ray.Driver.Meaning.{Denotes, Extends, Denotes-Extends}
use nano_ray.Driver.Soundness.{Recorded, MessageOk, ReportOk, StoreOk, Sound, resolved-Denotes}
use nano_ray.Driver.Safety.{collect_returned, collect_raised}

pub AllSpecs-map :
    {P Q : TaskSpec → Type 0} (s : Scheduler)
    → ((spec : TaskSpec) → P spec → Q spec)
    → AllSpecs P s
    → AllSpecs Q s
AllSpecs-map s f h = record {
  of_ready = All-map s.ready_queue f h.of_ready;
  of_pending = λ t q e. f q.spec (h.of_pending t q e);
}

module _ (p : Platform) where
  abbrev Table : Type 0
  Table = OwnershipTable p.Bytes

  pub MessageOk-Extends :
      {table table' : Table}
      → Extends p table table'
      → (m : Option (Message p)) → MessageOk p table m
      → MessageOk p table' m
  MessageOk-Extends ext none h = tt
  MessageOk-Extends ext (some m) h = Denotes-Extends p ext h

  pub Recorded-Extends :
      {table table' : Table}
      → Extends p table table'
      → (spec : TaskSpec) → Recorded p table spec
      → Recorded p table' spec
  Recorded-Extends ext spec h = record {
    produces = ext.producers _ _ h.produces;
    deps = h.deps;
    lineage = ext.lineages _ _ h.lineage;
  }

  -- What the flush sends is right.
  pub sent-MessageOk :
      (table : Table) (store : ObjectStore) (specs : List TaskSpec)
      (sent : List (Option (Message p)))
      → StoreOk p table store
      → All (Recorded p table) specs
      → AllSent p store specs sent
      → All (MessageOk p table) sent
  sent-MessageOk table store [] [] ok h none_sent = tt
  sent-MessageOk table store [] (_ ∷ _) ok h x = elim x [ ]
  sent-MessageOk table store (spec ∷ specs) _ ok h
        (one_sent {msgs = msgs} {a = a} {k = k} resolved rest) =
      (
        resolved-Denotes p table store spec.object_id spec.task_id _ h.0.deps spec.func spec.args a
            spec.kwargs k ok h.0.produces h.0.lineage
            (p.loads-dumps_task spec.func spec.args spec.kwargs) resolved,
        sent-MessageOk table store specs msgs ok h.1 rest,
      )

  pub flush-Sound : (r r' : Runtime p) → Sound p r → flush_ready_tasks p r ≡ some r' → Sound p r'
  flush-Sound r r' h e =
      let (sent, ok, same) = flush_ready_tasks_sent p r r' e in
      subst (Sound p) (sym same) (record {
        stored = h.stored;
        queued = All-append (MessageOk p r.ownership) r.task_queue sent h.queued (
            sent-MessageOk r.ownership r.object_store r.scheduler.ready_queue sent h.stored
              h.recorded.of_ready ok);
        reported = h.reported;
        recorded = record { of_ready = tt; of_pending = h.recorded.of_pending };
        ids_used = h.ids_used;
        tasks_used = h.tasks_used;
      })

  -- A report in: the table keeps its lineages, the store gains the object's value.
  pub called-Extends : (table : Table) (c : Calls.Call) → Extends p table (Calls.step table c)
  called-Extends table c = record {
    producers = λ o t e. (step_lineage table c 0 o).1 ∙ e;
    lineages = λ t l e. (step_lineage table c t 0).0 ∙ e;
  }

  pub StoreOk-put :
      (table : Table) (store : ObjectStore) (o : ℕ) (v : Value)
      → StoreOk p table store
      → Denotes p table o v
      → StoreOk p table (ObjectStore.put o v store)
  StoreOk-put table store o v ok mine j w e = elim (Bool-cases (j == o)) [
    | inl same ↦
        let value : v ≡ w = ground (arith, content-put o v store j) in
        subst (λ x. Denotes p table x w) (sym ((==_iff j o).0 same))
          (subst (Denotes p table o) value mine)
    | inr other ↦ ok j w (ground (arith, content-put o v store j))
  ]

  -- The table after a call, the value stored, and a scheduler that holds recorded tasks.
  pub stored-Sound :
      (r : Runtime p) (c : Calls.Call) (o : ℕ) (v : Value) (s : Scheduler)
      → Sound p r
      → Denotes p r.ownership o v
      → AllSpecs (Recorded p r.ownership) s
      → Sound p (record r {
        object_store = ObjectStore.put o v r.object_store;
        ownership = Calls.step r.ownership c;
        scheduler = s;
      })
  stored-Sound r c o v s h mine specs =
      let ext = called-Extends r.ownership c in
      record {
        stored =
            StoreOk-put (Calls.step r.ownership c) r.object_store o v
              (λ j w e. Denotes-Extends p ext (h.stored j w e)) (Denotes-Extends p ext mine);
        queued = All-map r.task_queue (MessageOk-Extends ext) h.queued;
        reported = All-map r.result_queue (λ m. Denotes-Extends p ext) h.reported;
        recorded = AllSpecs-map s (Recorded-Extends ext) specs;
        ids_used = λ j t e. h.ids_used j t (sym (step_lineage r.ownership c 0 j).1 ∙ e);
        tasks_used = λ t l e. h.tasks_used t l (sym (step_lineage r.ownership c t 0).0 ∙ e);
      }

  pub collect-Sound :
      (report : Report p) (r r' : Runtime p)
      → Sound p r
      → ReportOk p r.ownership report
      → collect p report r ≡ some r'
      → Sound p r'
  unfolding accept reject Calls.step
  collect-Sound report r r' h mine e = elim (Outcome-cases report.result) [
    | inl (b, f) ↦
        let (to_flush, value) = collect_returned p report b r f in
        flush-Sound (accept p report.task_id report.object_id (p.loads_value b) r) r'
          (stored-Sound r (Calls.finishes report.task_id) report.object_id (p.loads_value b)
            (Scheduler.on_object_ready report.object_id r.scheduler) h
            (subst (Denotes p r.ownership report.object_id) value mine)
            (on_object_ready-AllSpecs _ report.object_id r.scheduler h.recorded))
          (sym to_flush ∙ e)
    | inr (m, f) ↦
        let (done, value) = collect_raised p report m r f in
        subst (Sound p) (some-injective _ _ (sym done ∙ e)) (
          stored-Sound r (Calls.fails report.task_id m) report.object_id
            (task_error report.task_id m) r.scheduler h
            (subst (Denotes p r.ownership report.object_id) value mine) h.recorded)
  ]

  pub evict-Sound : (o : ℕ) (r : Runtime p) → Sound p r → Sound p (evict_object p o r).1
  unfolding evict_object
  evict-Sound o r h = record {
    stored = λ j w e. h.stored j w (ground (arith, content-delete o r.object_store j));
    queued = h.queued;
    reported = h.reported;
    recorded = h.recorded;
    ids_used = h.ids_used;
    tasks_used = h.tasks_used;
  }

  -- A worker takes a message and reports.
  pub finish-Sound :
      (before after : List (Option (Message p))) (m : Message p) (r : Runtime p)
      → r.task_queue ≡ before ++ some m ∷ after
      → Sound p r
      → Sound p (record r {
        task_queue = before ++ after;
        result_queue = r.result_queue ++ work p m ∷ [];
      })
  unfolding work
  finish-Sound before after m r e h =
      let queue : All (MessageOk p r.ownership) (before ++ some m ∷ after) =
        subst (All (MessageOk p r.ownership)) e h.queued in
      let (mine, later) =
        All-append-right (MessageOk p r.ownership) before (some m ∷ after) queue in
      record {
        stored = h.stored;
        queued =
            All-append (MessageOk p r.ownership) before after
              (All-append-left (MessageOk p r.ownership) before (some m ∷ after) queue) later;
        reported =
            All-append (ReportOk p r.ownership) r.result_queue (work p m ∷ []) h.reported
              (mine, tt);
        recorded = h.recorded;
        ids_used = h.ids_used;
        tasks_used = h.tasks_used;
      }
