-- ===== src/Cluster/Values.antt =====
-- The values that a cluster of python/nano_ray (head.py, node.py) stores, against the meaning of
-- their objects.
use nano_ray.Prelude.{
  ℕ, ◌≡◌, refl, sym, ap, subst, ◌∷◌, none, some, arith, ◌==◌, inl, inr, Bool-cases, All,
}
use nano_ray.Prelude.Maybe.{>>=-eq-some}
use mathlib.Core.Option.{some-injective}
use nano_ray.Prelude.Dict.{lookup, get_field}
use nano_ray.Values.{Value}
use nano_ray.ObjectStore
use nano_ray.ObjectStore.Laws.{content}
use nano_ray.Ownership
use nano_ray.Ownership.{get_producer_task, get_task_lineage}
use nano_ray.Scheduler
use nano_ray.Scheduler.{Scheduler}
use nano_ray.Worker.{Platform}
use nano_ray.Driver.Meaning.{Denotes}
use nano_ray.Driver.Soundness.{ReportOk, Sound}
use nano_ray.Driver.Preserved.{finish-Sound}
use nano_ray.Dashboard.{Clock}
use nano_ray.Head
use nano_ray.Head.{
  Head, Request, register_worker, submits, get_object, contains_object, poll_task, task_result,
  unknown, Response, task, no_task, dispatch, disconnect, flush_ready_tasks, enter_task,
  submit_task, handle_task_result, accept, poll, poll_popped, prepare_task,
}
use nano_ray.Cluster.{WorkerNode, init, take_response}
use nano_ray.Cluster.System.{
  Cluster, update, IsClient, Step, asks, polls, works, reports, leaves, Reach, at_start, then_step,
}
use nano_ray.Cluster.Answers.{view, Keeps, submit-IsSound, result-IsSound}
use nano_ray.Cluster.Polls.{poll_ready}

module _ (p : Platform) (c : Clock) where
  pub record IsSound (s : Cluster p c) : Type 0 where
    pub no_locals : s.head.local_task_queue ≡ none
    pub sound : (i : ℕ) → Sound p (view p c s.head (s.nodes i))

  -- The other requests of clients.
  asks-IsSound :
      (now after : c.Time) (request : Request p c) (conn : ℕ) (response : Response p c)
      (h h' : Head p c)
      → IsClient p c request
      → h.local_task_queue ≡ none
      → dispatch p c now after request conn h ≡ some (response, h')
      → Keeps p c h h'
  unfolding dispatch
  asks-IsSound now after register_worker conn response h h' client idle e =
      subst (Keeps p c h) (ap (λ (x : Response p c × Head p c). x.1) (some-injective _ _ e))
        (idle, λ n ok. ok)
  asks-IsSound now after (submits func args kwargs) conn response h h' client idle e =
      let ((o, h₁), done, same) = >>=-eq-some (submit_task p c now func args kwargs h) _ e in
      let (idle', ok) = submit-IsSound p c now func args kwargs h h₁ o idle done in
      subst (Keeps p c h) (ap (λ (x : Response p c × Head p c). x.1) (some-injective _ _ same))
        (idle', ok)
  asks-IsSound now after (get_object o) conn response h h' client idle e =
      let (v, found, same) = >>=-eq-some (ObjectStore.get_now o h.object_store) _ e in
      subst (Keeps p c h) (ap (λ (x : Response p c × Head p c). x.1) (some-injective _ _ same))
        (idle, λ n ok. ok)
  asks-IsSound now after (contains_object o) conn response h h' client idle e =
      subst (Keeps p c h) (ap (λ (x : Response p c × Head p c). x.1) (some-injective _ _ e))
        (idle, λ n ok. ok)
  asks-IsSound now after poll_task conn response h h' client idle e = elim client [ ]
  asks-IsSound now after (task_result report) conn response h h' client idle e = elim client [ ]
  asks-IsSound now after (unknown cmd) conn response h h' client idle e =
      subst (Keeps p c h) (ap (λ (x : Response p c × Head p c). x.1) (some-injective _ _ e))
        (idle, λ n ok. ok)

  -- One node changes, the head does not.
  node-IsSound :
      (h h' : Head p c) (nodes : ℕ → WorkerNode p c) (i : ℕ) (n : WorkerNode p c)
      → ((j : ℕ) → Sound p (view p c h' (nodes j)))
      → Sound p (view p c h' n)
      → (j : ℕ) → Sound p (view p c h' (update p c nodes i n j))
  node-IsSound h h' nodes i n others mine j = elim (Bool-cases (j == i)) [
    | inl e ↦ rw e mine
    | inr e ↦ rw e (others j)
  ]

  Step-IsSound : (s t : Cluster p c) → IsSound s → Step p c s t → IsSound t
  unfolding dispatch disconnect
  Step-IsSound s t h (asks now after request conn response head' client e same) =
      let (idle, ok) =
        asks-IsSound now after request conn response s.head head' client h.no_locals e in
      subst IsSound (sym same)
        (record { no_locals = idle; sound = λ i. ok (s.nodes i) (h.sound i) })
  Step-IsSound s t h (polls now after i conn response head' e same) =
      let (idle, ok) =
        poll_ready p c s.head.scheduler.ready_queue s.head head' response refl h.no_locals e in
      subst IsSound (sym same) (record {
        no_locals = idle;
        sound =
            node-IsSound s.head head' s.nodes i (take_response p c response (s.nodes i))
              (λ j. (ok (s.nodes j) (h.sound j)).0) (ok (s.nodes i) (h.sound i)).1;
      })
  Step-IsSound s t h (works i before after m e same) = subst IsSound (sym same) (record {
    no_locals = h.no_locals;
    sound =
        node-IsSound s.head s.head s.nodes i _ h.sound
          (finish-Sound p before after m (view p c s.head (s.nodes i)) e (h.sound i));
  })
  Step-IsSound s t h (reports now after i conn report rest response head' queue e same) =
      let (h₁, done, acked) = >>=-eq-some (handle_task_result p c now after report s.head) _ e in
      let final : h₁ ≡ head' =
        ap (λ (x : Response p c × Head p c). x.1) (some-injective _ _ acked) in
      let (idle, ok) = result-IsSound p c now after report s.head h₁ h.no_locals done in
      let mine : All (ReportOk p s.head.ownership) (report ∷ rest) =
        subst (All (ReportOk p s.head.ownership)) queue (h.sound i).reported in
      let i_ok = h.sound i in
      subst IsSound (sym same) (
        subst
          (λ (x : Head p c). IsSound (record {
            head = x;
            nodes = update p c s.nodes i (record (s.nodes i) { result_queue = rest });
          }))
          final
          (record {
            no_locals = idle;
            sound =
                node-IsSound s.head h₁ s.nodes i (record (s.nodes i) { result_queue = rest })
                  (λ j. ok (s.nodes j) mine.0 (h.sound j))
                  (ok (record (s.nodes i) { result_queue = rest }) mine.0
                    (record {
                      stored = i_ok.stored;
                      queued = i_ok.queued;
                      reported = mine.1;
                      recorded = i_ok.recorded;
                      ids_used = i_ok.ids_used;
                      tasks_used = i_ok.tasks_used;
                    }));
          }))
  Step-IsSound s t h (leaves conn same) =
      subst IsSound (sym same) (record { no_locals = h.no_locals; sound = h.sound })

  pub Reach-IsSound : (sizes : ℕ → ℕ) (s : Cluster p c) → Reach p c sizes s → IsSound s
  unfolding Head.init init Scheduler.init Ownership.init ObjectStore.init get_producer_task
      get_task_lineage get_field lookup
  Reach-IsSound sizes s at_start = record {
    no_locals = refl;
    sound = λ i. record {
      stored = λ o v e. absurd (ground arith);
      queued = tt;
      reported = tt;
      recorded = record { of_ready = tt; of_pending = λ t q e. absurd (ground arith) };
      ids_used = λ o t e. absurd (ground arith);
      tasks_used = λ t l e. absurd (ground arith);
    };
  }
  Reach-IsSound sizes s (then_step {s = s'} run st) =
      Step-IsSound s' s (Reach-IsSound sizes s' run) st

  -- In every reachable state of a cluster whose head has no local workers, with any number of
  -- clients and worker nodes, a stored value is the value of its task's function at the values of the
  -- objects that the task was given, as the head's ownership table records them.
  pub cluster-Denotes :
      (sizes : ℕ → ℕ) (s : Cluster p c) (o : ℕ) (v : Value)
      → Reach p c sizes s
      → content s.head.object_store o ≡ some v
      → Denotes p s.head.ownership o v
  cluster-Denotes sizes s o v run e = ((Reach-IsSound sizes s run).sound 0).stored o v e
