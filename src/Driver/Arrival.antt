-- ===== src/Driver/Arrival.antt =====
-- The turns of Driver.Turns, one worker process and the collector thread of
-- python/nano_ray/driver.py, against what a waiting thread relies on.
use nano_ray.Prelude.{
  ℕ, zero, suc, ◌+◌, ◌*◌, ◌≤◌, ◌<◌, ◌≡◌, refl, sym, ◌∙◌, ap, subst, List, [], ◌∷◌, ◌++◌, Option,
  none, some, true, arith, length, ◌⊎◌, inl, inr, Bool-cases, append_assoc, append-nil,
}
use mathlib.Core.Option.{some-injective}
use nano_ray.ObjectStore
use nano_ray.ObjectStore.Laws.{contains-put}
use nano_ray.Worker.{Platform, Message, Report, work, stored_value, Outcome-cases}
use nano_ray.Driver.{Runtime, collect, accept, reject}
use nano_ray.Driver.Flush.{flush_ready_tasks_sent}
use nano_ray.Driver.Safety.{collect_returned, collect_raised, collect-Settled}
use nano_ray.Driver.System.{here, next}
use nano_ray.Driver.Recoverable.{Open, Ready, Steps-IsLater}
use nano_ray.Driver.Missing.{Has, IsWait}
use nano_ray.Driver.Turns.{
  after_work, first_task, first_report, one_turn, take_turns, wait_by_turns, one_turn-Step,
  take_turns-Steps,
}

module _ (p : Platform) where
  -- What a report leaves of the queues.
  collect_queues :
      (report : Report p) (r r' : Runtime p)
      → collect p report r ≡ some r'
      → (sent : List (Option (Message p))) × (r'.task_queue ≡ r.task_queue ++ sent)
        × (r'.result_queue ≡ r.result_queue)
  unfolding accept reject
  collect_queues report r r' e = elim (Outcome-cases report.result) [
    | inl (b, f) ↦
        let (sent, ok, same) =
          flush_ready_tasks_sent p (accept p report.task_id report.object_id (p.loads_value b) r) r'
            (sym (collect_returned p report b r f).0 ∙ e) in
        (
          sent,
          ap (λ (x : Runtime p). x.task_queue) same,
          ap (λ (x : Runtime p). x.result_queue) same,
        )
    | inr (m, f) ↦
        let same = some-injective _ _ (sym e ∙ (collect_raised p report m r f).0) in
        (
          [],
          ap (λ (x : Runtime p). x.task_queue) same ∙ sym (append-nil r.task_queue),
          ap (λ (x : Runtime p). x.result_queue) same,
        )
  ]

  -- The turn of the collector.
  record IsCollected (report : Report p) (rest : List (Report p)) (r r' : Runtime p) : Type 0 where
    pub turn : one_turn p r ≡ some r'
    pub sent : List (Option (Message p))
    pub tasks : r'.task_queue ≡ r.task_queue ++ sent
    pub results : r'.result_queue ≡ rest
    pub has : Has p report.object_id r'

  collector_turn :
      (report : Report p) (rest : List (Report p)) (r : Runtime p)
      → Ready p r
      → r.result_queue ≡ report ∷ rest
      → (r' : Runtime p) × IsCollected report rest r r'
  unfolding one_turn
  collector_turn report rest r ready q =
      let (r', e, ok, store) =
        collect-Settled p report (record r { result_queue = rest })
          (record { scheduled = ready.settled.scheduled; sent_all = ready.settled.sent_all }) in
      let (sent, tasks, results) = collect_queues report (record r { result_queue = rest }) r' e in
      (
        r',
        record {
          turn = subst (λ x. first_report p x r ≡ some r') (sym q) e;
          sent = sent;
          tasks = tasks;
          results = results;
          has =
              subst (λ x. ObjectStore.contains report.object_id x ≡ true) (sym store)
                (ground (
                  arith,
                  contains-put report.object_id (stored_value p report.task_id report.result)
                      r.object_store report.object_id,
                ));
        },
      )

  -- The turn of the worker.
  worker_turn :
      (m : Message p) (rest : List (Option (Message p))) (r : Runtime p)
      → r.result_queue ≡ []
      → r.task_queue ≡ some m ∷ rest
      → one_turn p r ≡ some (after_work p rest m r)
  unfolding one_turn
  worker_turn m rest r none_left q =
      subst (λ x. first_report p x r ≡ some (after_work p rest m r)) (sym none_left)
        (subst (λ x. first_task p x r ≡ some (after_work p rest m r)) (sym q) refl)

  -- The object's report or its task is in a queue, and `n` turns are enough for it.
  data Coming (r : Runtime p) (o : ℕ) (n : ℕ) : Type 0 where
    reported :
        (before after : List (Report p)) (report : Report p)
        → r.result_queue ≡ before ++ report ∷ after
        → report.object_id ≡ o
        → length before < n
        → Coming r o n
    queued :
        (before after : List (Option (Message p))) (m : Message p)
        → r.task_queue ≡ before ++ some m ∷ after
        → m.object_id ≡ o
        → 2 * length before + length r.result_queue + 2 ≤ n
        → Coming r o n

  abbrev Turn : Runtime p → ℕ → ℕ → Type 0
  Turn r o n = (r' : Runtime p) × (one_turn p r ≡ some r') × (Has p o r' ⊎ Coming r' o n)

  reported-Turn :
      (before after : List (Report p)) (report : Report p) (n o : ℕ) (r : Runtime p)
      → Ready p r
      → r.result_queue ≡ before ++ report ∷ after
      → report.object_id ≡ o
      → length before < suc n
      → Turn r o n
  reported-Turn [] after report n o r ready q its less =
      let (r', c) = collector_turn report after r ready q in
      (r', c.turn, inl (subst (λ x. Has p x r') its c.has))
  reported-Turn (x ∷ before) after report n o r ready q its less =
      let (r', c) = collector_turn x (before ++ report ∷ after) r ready q in
      (r', c.turn, inr (reported before after report c.results its (ground arith)))

  queued-Turn :
      (results : List (Report p)) (before after : List (Option (Message p))) (m : Message p)
      (n o : ℕ) (r : Runtime p)
      → Ready p r
      → r.result_queue ≡ results
      → r.task_queue ≡ before ++ some m ∷ after
      → m.object_id ≡ o
      → 2 * length before + length results + 2 ≤ suc n
      → Turn r o n
  unfolding work
  queued-Turn (x ∷ rest) before after m n o r ready q t its enough =
      let (r', c) = collector_turn x rest r ready q in
      (
        r',
        c.turn,
        inr (
            queued before (after ++ c.sent) m
              (c.tasks ∙ ap (λ y. y ++ c.sent) t ∙ append_assoc before (some m ∷ after) c.sent) its
              (rw c.results (omega (arith, enough)))),
      )
  queued-Turn [] [] after m n o r ready q t its enough = (
    after_work p after m r,
    worker_turn m after r q t,
    inr (reported [] [] (work p m) (ap (λ x. x ++ work p m ∷ []) q) its (omega (arith, enough))),
  )
  queued-Turn [] (none ∷ before) after m n o r ready q t its enough =
      let queue = subst (Open p) t ready.queue_open in absurd (ground (arith, queue.0))
  queued-Turn [] (some x ∷ before) after m n o r ready q t its enough = (
    after_work p (before ++ some m ∷ after) x r,
    worker_turn x (before ++ some m ∷ after) r q t,
    inr (
        queued before after m refl its (
          subst (λ y. 2 * length before + length (y ++ work p x ∷ []) + 2 ≤ n) (sym q)
            (omega (arith, enough)))),
  )

  some-Turn : (n o : ℕ) (r : Runtime p) → Ready p r → Coming r o (suc n) → Turn r o n
  some-Turn n o r ready (reported before after report q its less) =
      reported-Turn before after report n o r ready q its less
  some-Turn n o r ready (queued before after m t its enough) =
      queued-Turn r.result_queue before after m n o r ready refl t its enough

  Coming-suc : (n o : ℕ) (r : Runtime p) → Coming r o n → (k : ℕ) × (n ≡ suc k)
  Coming-suc zero o r (reported before after report q its less) = absurd (omega arith)
  Coming-suc zero o r (queued before after m t its enough) = absurd (omega arith)
  Coming-suc (suc k) o r c = (k, refl)

  take_turns-there : (n o : ℕ) (r : Runtime p) → Has p o r → take_turns p n o r ≡ some r
  unfolding take_turns
  take_turns-there zero o r there = rw (take_turns, there) refl
  take_turns-there (suc n) o r there = rw (take_turns, there) refl

  take_turns-arrives :
      (n o : ℕ) (r : Runtime p)
      → Ready p r
      → Coming r o n
      → (r' : Runtime p) × (take_turns p n o r ≡ some r')
  unfolding take_turns
  take_turns-arrives zero o r ready c = absurd (ground (arith, Coming-suc zero o r c))
  take_turns-arrives (suc n) o r ready c =
      elim (Bool-cases (ObjectStore.contains o r.object_store)) [
        | inl there ↦ (r, take_turns-there (suc n) o r there)
        | inr missing ↦
            let (r₁, turn, later) = some-Turn n o r ready c in
            let ready₁ = (Steps-IsLater p ready (next here (one_turn-Step p r r₁ turn))).ready in
            let (r', rest) : (r' : Runtime p) × (take_turns p n o r₁ ≡ some r') = elim later [
              | inl has ↦ (r₁, take_turns-there n o r₁ has)
              | inr coming ↦ take_turns-arrives n o r₁ ready₁ coming
            ] in
            (r', rw (take_turns, missing, turn) rest)
      ]

  length-middle :
      (before after : List (Option (Message p))) (m : Option (Message p))
      → length before < length (before ++ m ∷ after)
  length-middle [] after m = omega arith
  length-middle (x ∷ before) after m = omega (arith, length-middle before after m)

  -- One worker and the collector, in turns, do all that a waiting thread relies on: they only take
  -- steps of the runtime and stop when the object is there, and the turns that they are given are
  -- enough for the task of the object, wherever it is in the queue.
  pub wait_by_turns-IsWait : IsWait p (wait_by_turns p)
  unfolding wait_by_turns
  wait_by_turns-IsWait = record {
    runs = λ timeout o r r' e. take_turns-Steps p _ o r r' e;
    arrives = λ before after m o r ready t its.
        take_turns-arrives (2 * length r.task_queue + length r.result_queue) o r ready
          (queued before after m t its (rw t (omega (arith, length-middle before after (some m)))));
  }
