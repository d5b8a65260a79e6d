-- ===== src/Driver/Recoverable.antt =====
-- What `reconstruct_object` of python/nano_ray/driver.py needs of a runtime, and what the steps of
-- other threads keep of it.
use nano_ray.Prelude.{
  ℕ, suc, ◌≡◌, refl, sym, ◌∙◌, ap, subst, List, ◌∷◌, ◌++◌, Option, some, true, elem, is_some, All,
  All-append, All-append-left, All-append-right, inl, inr,
}
use nano_ray.Prelude.Maybe.{>>=-eq-some}
use mathlib.Core.Option.{some-injective}
use nano_ray.Values.{Items, Fields, Func, TaskSpec}
use nano_ray.ObjectStore
use nano_ray.ObjectStore.{ObjectStore}
use nano_ray.Ownership.{get_producer_task, get_task_lineage}
use nano_ray.Dag.{extract_dependencies}
use nano_ray.Worker.{Platform, Message, returned, Outcome-cases}
use nano_ray.Driver.{Runtime, init, enter_task, flush_ready_tasks, submit_task, accept, reject}
use nano_ray.Driver.Flush.{AllSent, none_sent, one_sent, flush_ready_tasks_sent}
use nano_ray.Driver.Meaning.{Extends}
use nano_ray.Driver.Soundness.{Sound}
use nano_ray.Driver.Safety.{Settled, collect_returned, collect_raised}
use nano_ray.Driver.System.{Step, submits, finishes, collects, resends, Steps, here, next, lossless}
use nano_ray.Driver.Run.{send_again_lem, Step-Sound, run-Sound}
use nano_ray.Driver.Results.{Grows-refl, Extends-trans, Step-Grows, Step-Settled, run-Settled}

module _ (p : Platform) where
  -- No shutdown sentinel is in the queue.
  abbrev pub Open : List (Option (Message p)) → Type 0
  Open queue = All (λ m. is_some m ≡ true) queue

  -- A runtime at work.
  pub record Ready (r : Runtime p) : Type 0 where
    pub sound : Sound p r
    pub settled : Settled p r
    pub queue_open : Open r.task_queue

  AllSent-Open :
      {store : ObjectStore} {specs : List TaskSpec} {sent : List (Option (Message p))}
      → AllSent p store specs sent
      → Open sent
  AllSent-Open none_sent = tt
  AllSent-Open (one_sent e more) = (refl, AllSent-Open more)

  pub flush-Open :
      (r r' : Runtime p) → Open r.task_queue → flush_ready_tasks p r ≡ some r' → Open r'.task_queue
  flush-Open r r' h e =
      let (sent, ok, same) = flush_ready_tasks_sent p r r' e in
      subst (λ (x : Runtime p). Open x.task_queue) (sym same)
        (All-append _ r.task_queue sent h (AllSent-Open ok))

  Step-Open : (r r' : Runtime p) → Open r.task_queue → Step p r r' → Open r'.task_queue
  unfolding submit_task enter_task accept reject
  Step-Open r r' h (submits func args kwargs o e) =
      let (s, flush, same) =
        >>=-eq-some (flush_ready_tasks p (enter_task p func args kwargs r).1) _ e in
      let state : s ≡ r' = ap (λ (x : ℕ × Runtime p). x.1) (some-injective _ _ same) in
      subst (λ (x : Runtime p). Open x.task_queue) state (flush-Open _ s h flush)
  Step-Open r r' h (finishes before after m e same) =
      let queue : Open (before ++ some m ∷ after) = subst Open e h in
      subst (λ (x : Runtime p). Open x.task_queue) (sym same)
        (All-append _ before after (All-append-left _ before (some m ∷ after) queue)
          (All-append-right _ before (some m ∷ after) queue).1)
  Step-Open r r' h (collects report rest e c) = elim (Outcome-cases report.result) [
    | inl (b, f) ↦ flush-Open _ r' h (sym (collect_returned p report b _ f).0 ∙ c)
    | inr (m, f) ↦
        subst (λ (x : Runtime p). Open x.task_queue)
          (some-injective _ _ (sym (collect_raised p report m _ f).0 ∙ c)) h
  ]
  Step-Open r r' h (resends t o bytes deps prod lin e) =
      subst (λ (x : Runtime p). Open x.task_queue) (sym (send_again_lem p t o bytes r r' e).sent)
        (All-append _ r.task_queue _ h (refl, tt))

  -- `r'` is `r` after some more work.
  pub record IsLater (r r' : Runtime p) : Type 0 where
    pub ready : Ready r'
    pub kept :
        (d : ℕ)
        → ObjectStore.contains d r.object_store ≡ true
        → ObjectStore.contains d r'.object_store ≡ true
    pub grows : Extends p r.ownership r'.ownership

  pub Steps-IsLater : {r r' : Runtime p} → Ready r → Steps p r r' → IsLater r r'
  Steps-IsLater {r} h here = record { ready = h; kept = λ d there. there; grows = Grows-refl p r }
  Steps-IsLater {r' = r₂} h (next {r' = r₁} run s) =
      let earlier = Steps-IsLater h run in
      let last = Step-Settled p r₁ r₂ earlier.ready.settled s in
      record {
        ready = record {
          sound = Step-Sound p r₁ r₂ earlier.ready.sound s;
          settled = last.settled;
          queue_open = Step-Open r₁ r₂ earlier.ready.queue_open s;
        };
        kept = λ d there. last.kept d (earlier.kept d there);
        grows = Extends-trans p earlier.grows (Step-Grows p r₁ r₂ earlier.ready.sound s);
      }

  -- An object is stored, or its lineage is kept and `n` nested calls, at most, rebuild what its
  -- task needs.
  pub data Recoverable (r : Runtime p) : ℕ → ℕ → Type 0 where
    stored : {n o : ℕ} → ObjectStore.contains o r.object_store ≡ true → Recoverable r n o
    rebuilt :
        {n o : ℕ} (t : ℕ) (bytes : p.Bytes) (func : Func) (args : Items) (kwargs : Fields)
        → get_producer_task o r.ownership ≡ some t
        → get_task_lineage t r.ownership ≡ some (bytes, extract_dependencies args kwargs)
        → p.loads_task bytes ≡ returned (func, args, kwargs)
        → ((d : ℕ) → elem d (extract_dependencies args kwargs) ≡ true → Recoverable r n d)
        → Recoverable r (suc n) o

  -- What can be rebuilt stays so while others work.
  pub Recoverable-later :
      {r r' : Runtime p} {n o : ℕ} → IsLater r r' → Recoverable r n o → Recoverable r' n o
  Recoverable-later later (stored there) = stored (later.kept _ there)
  Recoverable-later later (rebuilt t bytes func args kwargs prod lin loads deps) =
      rebuilt t bytes func args kwargs (later.grows.producers _ _ prod)
        (later.grows.lineages _ _ lin) loads (λ d h. Recoverable-later later (deps d h))

  init-Ready : (n : ℕ) → Ready (init p n)
  unfolding init
  init-Ready n = record {
    sound = run-Sound p n (init p n) lossless;
    settled = run-Settled p n (init p n) here;
    queue_open = tt;
  }

  pub run-Ready : (n : ℕ) (r : Runtime p) → Steps p (init p n) r → Ready r
  run-Ready n r run = (Steps-IsLater (init-Ready n) run).ready
