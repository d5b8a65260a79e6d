-- ===== src/Driver/Flush.antt =====
-- `_flush_ready_tasks` of python/nano_ray/driver.py, on a ready queue whose dependencies are all in
-- the object store.
use nano_ray.Prelude.{
  ℕ, suc, ◌≡◌, refl, sym, ◌∙◌, ap, List, [], ◌∷◌, ◌++◌, append-nil, append_assoc, Option, none,
  some, true, arith, elem, length, Option-cases, inl, inr, All,
}
use mathlib.Core.Option.{some-injective}
use nano_ray.Values.{Items, Fields, TaskSpec}
use nano_ray.ObjectStore
use nano_ray.ObjectStore.{ObjectStore}
use nano_ray.ObjectStore.Laws.{get_now-content, contains-content}
use nano_ray.Scheduler
use nano_ray.Scheduler.Index.{pop_ready_task_first}
use nano_ray.Dag.{extract_dependencies, resolve_args}
use nano_ray.Dag.Resolve.{all_return, is_some-resolve_args}
use nano_ray.Worker.{Platform, Message}
use nano_ray.Driver.{Runtime, send, flush_rounds, flush_ready_tasks}

-- The objects that a task's arguments refer to.
abbrev pub spec_deps : TaskSpec → List ℕ
spec_deps spec = extract_dependencies spec.args spec.kwargs

-- All of the objects are in the store.
abbrev pub AllStored : ObjectStore → List ℕ → Type 0
AllStored store os = (d : ℕ) → elem d os ≡ true → ObjectStore.contains d store ≡ true

all_return-AllStored :
    (store : ObjectStore) (os : List ℕ)
    → AllStored store os
    → all_return (λ o. ObjectStore.get_now o store) os ≡ true
unfolding all_return elem
all_return-AllStored store [] h = refl
all_return-AllStored store (o ∷ os) h = ground (
  arith,
  h o,
  get_now-content o store,
  contains-content o store,
  all_return-AllStored store os (λ d e. h d (ground arith)),
)

pub resolves :
    (store : ObjectStore) (spec : TaskSpec)
    → AllStored store (spec_deps spec)
    → (a : Items) × (k : Fields) × (resolve_args
          (λ o. ObjectStore.get_now o store)
          spec.args
          spec.kwargs
        ≡ some (a, k))
resolves store spec h =
    elim (Option-cases (resolve_args (λ o. ObjectStore.get_now o store) spec.args spec.kwargs)) [
      | inl e ↦ absurd (
          ground (
            arith,
            is_some-resolve_args (λ o. ObjectStore.get_now o store) spec.args spec.kwargs,
            all_return-AllStored store (spec_deps spec) h,
          ))
      | inr ((a, k), e) ↦ (a, k, e)
    ]

module _ (p : Platform) where
  -- The message for a task whose arguments are resolved.
  abbrev pub message : TaskSpec → Items → Fields → Message p
  message spec a k = record {
    task_id = spec.task_id;
    object_id = spec.object_id;
    payload = p.dumps_task spec.func a k;
  }

  -- The messages for a list of tasks, each with its arguments resolved from the store.
  pub data AllSent (store : ObjectStore) : List TaskSpec → List (Option (Message p)) → Type 0 where
    none_sent : AllSent store [] []
    one_sent :
        {spec : TaskSpec} {specs : List TaskSpec} {msgs : List (Option (Message p))} {a : Items}
        {k : Fields}
        → resolve_args (λ o. ObjectStore.get_now o store) spec.args spec.kwargs ≡ some (a, k)
        → AllSent store specs msgs
        → AllSent store (spec ∷ specs) (some (message spec a k) ∷ msgs)

  -- The runtime with the ready queue emptied into the task queue.
  abbrev pub flushed : List (Option (Message p)) → Runtime p → Runtime p
  flushed sent r = record r {
    scheduler = record r.scheduler { ready_queue = [] };
    task_queue = r.task_queue ++ sent;
  }

  pub flush_one :
      (spec : TaskSpec) (specs : List TaskSpec) (a : Items) (k : Fields) (n : ℕ) (r : Runtime p)
      → r.scheduler.ready_queue ≡ spec ∷ specs
      → resolve_args (λ o. ObjectStore.get_now o r.object_store) spec.args spec.kwargs ≡ some (a, k)
      → flush_rounds p (suc n) r
        ≡ flush_rounds p n (record r {
          scheduler = record r.scheduler { ready_queue = specs };
          task_queue = r.task_queue ++ some (message spec a k) ∷ [];
        })
  unfolding flush_rounds send
  flush_one spec specs a k n r e h =
      rw (flush_rounds, pop_ready_task_first r.scheduler spec specs e, send, h)
        (rw (pop_ready_task_first r.scheduler spec specs e))

  pub flush_stuck :
      (spec : TaskSpec) (specs : List TaskSpec) (n : ℕ) (r : Runtime p)
      → r.scheduler.ready_queue ≡ spec ∷ specs
      → resolve_args (λ o. ObjectStore.get_now o r.object_store) spec.args spec.kwargs ≡ none
      → flush_rounds p (suc n) r ≡ none
  unfolding flush_rounds send
  flush_stuck spec specs n r e h =
      rw (flush_rounds, pop_ready_task_first r.scheduler spec specs e, send, h) refl

  flush_rounds_lem :
      (ready : List TaskSpec) (r : Runtime p)
      → r.scheduler.ready_queue ≡ ready
      → All (λ spec. AllStored r.object_store (spec_deps spec)) ready
      → (sent : List (Option (Message p))) × AllSent r.object_store ready sent
        × (flush_rounds p (length ready) r ≡ some (flushed sent r))
  unfolding flush_rounds Scheduler.pop_ready_task send
  flush_rounds_lem [] r e h = ([], none_sent, ground (arith, append-nil r.task_queue))
  flush_rounds_lem (spec ∷ specs) r e h =
      let (a, k, resolved) = resolves r.object_store spec h.0 in
      let r₁ : Runtime p = record r {
        scheduler = record r.scheduler { ready_queue = specs };
        task_queue = r.task_queue ++ some (message spec a k) ∷ [];
      } in
      let (sent, ok, rest) = flush_rounds_lem specs r₁ refl h.1 in
      (
        some (message spec a k) ∷ sent,
        one_sent resolved ok,
        flush_one spec specs a k (length specs) r e resolved
            ∙ rest
            ∙ ap (λ q. some (record (flushed [] r) { task_queue = q }))
                (append_assoc r.task_queue (some (message spec a k) ∷ []) sent),
      )

  flush_rounds_sent :
      (ready : List TaskSpec) (r r' : Runtime p)
      → r.scheduler.ready_queue ≡ ready
      → flush_rounds p (length ready) r ≡ some r'
      → (sent : List (Option (Message p))) × AllSent r.object_store ready sent
        × (r' ≡ flushed sent r)
  unfolding flush_rounds Scheduler.pop_ready_task send
  flush_rounds_sent [] r r' e h =
      ([], none_sent, sym (some-injective _ _ h) ∙ ground (arith, append-nil r.task_queue))
  flush_rounds_sent (spec ∷ specs) r r' e h =
      elim (Option-cases
        (resolve_args (λ o. ObjectStore.get_now o r.object_store) spec.args spec.kwargs)) [
          | inl none_yet ↦
              absurd (ground (arith, flush_stuck spec specs (length specs) r e none_yet))
          | inr ((a, k), resolved) ↦
              let r₁ : Runtime p = record r {
                scheduler = record r.scheduler { ready_queue = specs };
                task_queue = r.task_queue ++ some (message spec a k) ∷ [];
              } in
              let (sent, ok, rest) =
                flush_rounds_sent specs r₁ r' refl
                  (sym (flush_one spec specs a k (length specs) r e resolved) ∙ h) in
              (
                some (message spec a k) ∷ sent,
                one_sent resolved ok,
                rest
                    ∙ ap (λ q. record (flushed [] r) { task_queue = q })
                        (append_assoc r.task_queue (some (message spec a k) ∷ []) sent),
              )
        ]

  -- A flush that comes back has emptied the ready queue into the task queue, in order, and changed
  -- nothing else.
  pub flush_ready_tasks_sent :
      (r r' : Runtime p)
      → flush_ready_tasks p r ≡ some r'
      → (sent : List (Option (Message p))) × AllSent r.object_store r.scheduler.ready_queue sent
        × (r' ≡ flushed sent r)
  unfolding flush_ready_tasks
  flush_ready_tasks_sent r r' h = flush_rounds_sent r.scheduler.ready_queue r r' refl h

  -- When the dependencies of all ready tasks are stored, the flush does not wait. It empties the
  -- ready queue into the task queue, in order, and changes nothing else.
  pub flush_ready_tasks_lem :
      (r : Runtime p)
      → All (λ spec. AllStored r.object_store (spec_deps spec)) r.scheduler.ready_queue
      → (sent : List (Option (Message p))) × AllSent r.object_store r.scheduler.ready_queue sent
        × (flush_ready_tasks p r ≡ some (flushed sent r))
  unfolding flush_ready_tasks
  flush_ready_tasks_lem r h = flush_rounds_lem r.scheduler.ready_queue r refl h
