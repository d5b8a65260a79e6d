-- ===== src/Driver/Entry.antt =====
-- A submission of python/nano_ray/driver.py on a sound runtime.
use nano_ray.Prelude.{
  ℕ, ◌+◌, sym, ◌∙◌, List, [], ◌∷◌, arith, ◌==◌, inl, inr, Bool-cases, All-map, ==_iff,
}
use nano_ray.Values.{Items, Fields, Func, TaskSpec}
use nano_ray.ObjectStore
use nano_ray.ObjectStore.{ObjectStore}
use nano_ray.Ownership.{OwnershipTable}
use nano_ray.Ownership.Lookup.{register_task_lem, register_task_other}
use nano_ray.Scheduler.{Scheduler}
use nano_ray.Scheduler.Specs.{AllSpecs, submit-AllSpecs, on_object_ready-AllSpecs}
use nano_ray.Dag.{extract_dependencies}
use nano_ray.Worker.{Platform}
use nano_ray.Driver.{Runtime, retrigger, or_none, enter_task}
use nano_ray.Driver.Meaning.{Extends, Denotes-Extends}
use nano_ray.Driver.Soundness.{Recorded, Sound}
use nano_ray.Driver.Preserved.{AllSpecs-map, MessageOk-Extends, Recorded-Extends}

module _ (P : TaskSpec → Type 0) where
  retrigger-AllSpecs :
      (store : ObjectStore) (ds : List ℕ) (s : Scheduler)
      → AllSpecs P s
      → AllSpecs P (retrigger store ds s)
  unfolding retrigger
  retrigger-AllSpecs store [] s h = h
  retrigger-AllSpecs store (d ∷ ds) s h =
      retrigger-AllSpecs store ds _ (elim (Bool-cases (ObjectStore.contains d store)) [
        | inl e ↦ rw e (on_object_ready-AllSpecs P d s h)
        | inr e ↦ rw e h
      ])

module _ (p : Platform) where
  abbrev Table : Type 0
  Table = OwnershipTable p.Bytes

  -- A registration under ids that are not in use.
  pub registered-Extends :
      (func : Func) (args : Items) (kwargs : Fields) (r : Runtime p)
      → Sound p r
      → Extends p r.ownership (enter_task p func args kwargs r).1.ownership
  unfolding enter_task
  registered-Extends func args kwargs r h = record {
    producers = λ o t e.
        (register_task_other r.next_id (r.next_id + 1) _ _ _ _ r.ownership (r.next_id + 1) o
          (λ x. ground arith) (λ x. ground (arith, h.ids_used o t e))).1
        ∙ e;
    lineages = λ t l e.
        (register_task_other r.next_id (r.next_id + 1) _ _ _ _ r.ownership t r.next_id
          (λ x. ground (arith, h.tasks_used t l e)) (λ x. ground arith)).2
        ∙ e;
  }

  pub enter-Sound :
      (func : Func) (args : Items) (kwargs : Fields) (r : Runtime p)
      → Sound p r
      → Sound p (enter_task p func args kwargs r).1
  unfolding enter_task
  enter-Sound func args kwargs r h =
      let n = r.next_id in
      let deps = or_none (extract_dependencies args kwargs) in
      let bytes = p.dumps_task func args kwargs in
      let table' : Table = (enter_task p func args kwargs r).1.ownership in
      let spec : TaskSpec = record {
        task_id = n;
        object_id = n + 1;
        func = func;
        args = args;
        kwargs = kwargs;
      } in
      let ext = registered-Extends func args kwargs r h in
      let (status, result, producer, lineage) =
        register_task_lem n (n + 1) p.getpid (p.qualname func) bytes deps r.ownership in
      let other = λ (t : ℕ) (o : ℕ).
        register_task_other n (n + 1) p.getpid (p.qualname func) bytes deps r.ownership t o in
      record {
        stored = λ o v e. Denotes-Extends p ext (h.stored o v e);
        queued = All-map r.task_queue (MessageOk-Extends p ext) h.queued;
        reported = All-map r.result_queue (λ m. Denotes-Extends p ext) h.reported;
        recorded =
            retrigger-AllSpecs (Recorded p table') r.object_store (extract_dependencies args kwargs)
              _
              (submit-AllSpecs (Recorded p table') spec deps r.scheduler
                (record { produces = producer; deps = _; lineage = lineage })
                (AllSpecs-map r.scheduler (Recorded-Extends p ext) h.recorded));
        ids_used = λ o t e. elim (Bool-cases (o == n + 1)) [
          | inl same ↦ ground (arith, ==_iff o (n + 1))
          | inr new ↦ ground (
            arith,
            h.ids_used o t (
                sym (other (n + 1) o (λ x. ground arith) (λ x. ground (arith, ==_iff o (n + 1)))).1
                ∙ e),
          )
        ];
        tasks_used = λ t l e. elim (Bool-cases (t == n)) [
          | inl same ↦ ground (arith, ==_iff t n)
          | inr new ↦ ground (
            arith,
            h.tasks_used t l
                (sym (other t n (λ x. ground (arith, ==_iff t n)) (λ x. ground arith)).2 ∙ e),
          )
        ];
      }
