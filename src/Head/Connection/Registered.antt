-- ===== src/Head/Connection/Registered.antt =====
-- How often a connection is registered with the head (python/nano_ray/head.py), over a conversation.
use nano_ray.Prelude.{
  ℕ, zero, suc, ◌+◌, ◌-◌, ◌≡◌, refl, sym, ◌∙◌, ap, subst, List, [], ◌∷◌, ◌++◌, Option, none, some,
  arith, ◌==◌, if◌then◌else◌, inl, inr, Bool-cases, ==_iff, length,
}
use nano_ray.Prelude.Maybe.{◌>>=◌, >>=-eq-some}
use mathlib.Core.Option.{some-injective}
use nano_ray.Values.{TaskSpec, Items, Fields, Func}
use nano_ray.ObjectStore
use nano_ray.Scheduler
use nano_ray.Worker.{Platform, Message, Report, Outcome-cases}
use nano_ray.Dashboard
use nano_ray.Dashboard.{Clock}
use nano_ray.Head
use nano_ray.Head.{
  Head, Request, register_worker, submits, get_object, contains_object, poll_task, task_result,
  unknown, Response, ok, object_id, value, contains, no_task, task, ack, error, prepare_task,
  flush_rounds, flush_ready_tasks, enter_task, submit_task, accept, handle_task_result, poll_popped,
  poll, dispatch, remove, disconnect,
}
use nano_ray.Head.Connection.{serve, handle_connection}

unfoldable pub count : ℕ → List ℕ → ℕ
count conn [] = 0
count conn (d ∷ ds) = (if d == conn then 1 else 0) + count conn ds

count-append : (conn : ℕ) (xs ys : List ℕ) → count conn (xs ++ ys) ≡ count conn xs + count conn ys
unfolding count
count-append conn [] ys = omega arith
count-append conn (x ∷ xs) ys = omega (arith, count-append conn xs ys)

count_one : (conn : ℕ) → count conn (conn ∷ []) ≡ 1
unfolding count
count_one conn = ground (arith, ==_iff conn conn)

module _ (p : Platform) (c : Clock) where
  count-remove : (conn : ℕ) (xs : List ℕ) → count conn (remove p c conn xs) ≡ count conn xs - 1
  unfolding remove count
  count-remove conn [] = refl
  count-remove conn (d ∷ ds) = ground (arith, count-remove conn ds)

  -- Only a registration adds a connection to the list.
  abbrev pub registered : Response p c → ℕ
  registered ok = 1
  registered _ = 0

  unfoldable pub registrations : List (Response p c) → ℕ
  registrations [] = 0
  registrations (response ∷ responses) = registered response + registrations responses

  -- The second head has the connections of the first.
  abbrev pub SameConns : Head p c → Head p c → Type 0
  SameConns h h' = h'.worker_conns ≡ h.worker_conns

  flush_rounds-SameConns :
      (n : ℕ) (queue : List (Option (Message p))) (h h' : Head p c)
      → flush_rounds p c n queue h ≡ some h'
      → SameConns h h'
  unfolding flush_rounds
  flush_rounds-SameConns zero queue h h' e = subst (SameConns h) (some-injective _ _ e) refl
  flush_rounds-SameConns (suc n) queue h h' e =
      popped_case (λ q x. flush_rounds-SameConns n q x h') (Scheduler.pop_ready_task h.scheduler).0
        e
    where
      popped_case :
          ((q : List (Option (Message p))) (x : Head p c)
            → flush_rounds p c n q x ≡ some h'
            → SameConns x h')
          → (popped : Option TaskSpec)
          → elim popped as (λ _. Option (Head p c)) [
            | none ↦ some (record h {
              scheduler = (Scheduler.pop_ready_task h.scheduler).1;
              local_task_queue = some queue;
            })
            | some spec ↦
                prepare_task p c spec
                  (record h { scheduler = (Scheduler.pop_ready_task h.scheduler).1 })
                >>= λ m.
                    flush_rounds p c n
                      (queue ++ some m ∷ [])
                      (record h { scheduler = (Scheduler.pop_ready_task h.scheduler).1 })
          ]
            ≡ some h'
          → SameConns h h'
      popped_case others none same = subst (SameConns h) (some-injective _ _ same) refl
      popped_case others (some spec) same =
          let h₁ : Head p c = record h { scheduler = (Scheduler.pop_ready_task h.scheduler).1 } in
          let (m, sent, more) = >>=-eq-some (prepare_task p c spec h₁) _ same in
          others (queue ++ some m ∷ []) h₁ more

  flush_ready_tasks-SameConns :
      (queue : Option (List (Option (Message p)))) (h h' : Head p c)
      → h.local_task_queue ≡ queue
      → flush_ready_tasks p c h ≡ some h'
      → SameConns h h'
  unfolding flush_ready_tasks
  flush_ready_tasks-SameConns none h h' q e =
      subst (SameConns h) (some-injective _ _ (rw (flush_ready_tasks, q) at e)) refl
  flush_ready_tasks-SameConns (some queue) h h' q e =
      flush_rounds-SameConns (length h.scheduler.ready_queue) queue h h'
        (rw (flush_ready_tasks, q) at e)

  submit_task-SameConns :
      (now : c.Time) (func : Func) (args : Items) (kwargs : Fields) (h h' : Head p c) (o : ℕ)
      → submit_task p c now func args kwargs h ≡ some (o, h')
      → SameConns h h'
  unfolding submit_task enter_task
  submit_task-SameConns now func args kwargs h h' o e =
      let entered : Head p c = (enter_task p c func args kwargs h).1 in
      let (h₁, flushed, same) = >>=-eq-some (flush_ready_tasks p c entered) _ e in
      let kept = flush_ready_tasks-SameConns _ entered h₁ refl flushed in
      subst (SameConns h) (ap (λ (x : ℕ × Head p c). x.1) (some-injective _ _ same)) kept

  result-SameConns :
      (now after : c.Time) (report : Report p) (h h' : Head p c)
      → handle_task_result p c now after report h ≡ some h'
      → SameConns h h'
  unfolding handle_task_result accept Head.reject
  result-SameConns now after report h h' e = elim (Outcome-cases report.result) [
    | inl (b, f) ↦
        let accepted : Head p c = accept p c report.task_id report.object_id (p.loads_value b) h in
        let done : handle_task_result p c now after report h ≡ (
            flush_ready_tasks p c accepted >>= λ x.
            some (Head.completed p c now after report.task_id x)) =
          rw (f, handle_task_result) refl in
        let (h₁, flushed, same) = >>=-eq-some (flush_ready_tasks p c accepted) _ (sym done ∙ e) in
        let kept = flush_ready_tasks-SameConns _ accepted h₁ refl flushed in
        subst (SameConns h) (some-injective _ _ same) kept
    | inr (m, f) ↦
        let done : handle_task_result p c now after report h
            ≡ some (
                Head.on_metrics p c (Dashboard.on_task_failed c report.task_id)
                  (Head.reject p c report.task_id report.object_id m h)) =
          rw (f, handle_task_result) refl in
        subst (SameConns h) (some-injective _ _ (sym done ∙ e)) refl
  ]

  -- The first answer that is given, with its head.
  Registers : ℕ → Head p c → Response p c × Head p c → Type 0
  Registers conn h (response, h') =
      count conn h'.worker_conns ≡ count conn h.worker_conns + registered response

  answered-Registers :
      (conn : ℕ) (h h₁ h' : Head p c) (response₁ response : Response p c)
      → SameConns h h₁
      → registered response₁ ≡ 0
      → ◌≡◌ {A = Option (Response p c × Head p c)} (some (response₁, h₁)) (some (response, h'))
      → Registers conn h (response, h')
  unfolding Registers
  answered-Registers conn h h₁ h' response₁ response kept quiet e =
      subst (Registers conn h) (some-injective _ _ e) (omega (arith, ap (count conn) kept, quiet))

  -- Only the request `register_worker` adds a connection.
  dispatch-Registers :
      (now after : c.Time) (request : Request p c) (conn : ℕ) (h h' : Head p c)
      (response : Response p c)
      → dispatch p c now after request conn h ≡ some (response, h')
      → Registers conn h (response, h')
  unfolding dispatch poll Registers prepare_task
  dispatch-Registers now after register_worker conn h h' response e =
      subst (Registers conn h) (some-injective _ _ e)
        (omega (arith, count-append conn h.worker_conns (conn ∷ []), count_one conn))
  dispatch-Registers now after (submits func args kwargs) conn h h' response e =
      let ((o, h₁), done, same) = >>=-eq-some (submit_task p c now func args kwargs h) _ e in
      answered-Registers conn h h₁ h' (object_id o) response
        (submit_task-SameConns now func args kwargs h h₁ o done) refl same
  dispatch-Registers now after (get_object o) conn h h' response e =
      let (v, found, same) = >>=-eq-some (ObjectStore.get_now o h.object_store) _ e in
      answered-Registers conn h h h' (value v) response refl refl same
  dispatch-Registers now after (contains_object o) conn h h' response e =
      answered-Registers conn h h h' (contains (ObjectStore.contains o h.object_store)) response
        refl refl e
  dispatch-Registers now after poll_task conn h h' response e =
      popped_case (Scheduler.pop_ready_task h.scheduler).0
        (record h { scheduler = (Scheduler.pop_ready_task h.scheduler).1 }) refl e
    where
      popped_case :
          (popped : Option TaskSpec) (h₁ : Head p c)
          → SameConns h h₁
          → poll_popped p c popped h₁ ≡ some (response, h')
          → Registers conn h (response, h')
      popped_case none h₁ kept same =
          answered-Registers conn h h₁ h' no_task response kept refl same
      popped_case (some spec) h₁ kept same =
          let (m, sent, more) = >>=-eq-some (prepare_task p c spec h₁) _ same in
          answered-Registers conn h h₁ h' (task m) response kept refl more
  dispatch-Registers now after (task_result report) conn h h' response e =
      let (h₁, done, same) = >>=-eq-some (handle_task_result p c now after report h) _ e in
      answered-Registers conn h h₁ h' ack response (result-SameConns now after report h h₁ done)
        refl same
  dispatch-Registers now after (unknown cmd) conn h h' response e =
      answered-Registers conn h h h' (error cmd) response refl refl e

  module _ (others : Head p c → Head p c) where
    serve-registrations :
        (requests : List (c.Time × c.Time × Request p c)) (conn : ℕ) (h h' : Head p c)
        (responses : List (Response p c))
        → ((x : Head p c) → count conn (others x).worker_conns ≡ count conn x.worker_conns)
        → serve p c others requests conn h ≡ some (responses, h')
        → count conn h'.worker_conns ≡ count conn h.worker_conns + registrations responses
    unfolding serve registrations Registers
    serve-registrations [] conn h h' responses same e =
        subst
          (λ (x : List (Response p c) × Head p c).
            count conn x.1.worker_conns ≡ count conn h.worker_conns + registrations x.0)
          (some-injective _ _ e)
          (elim (Bool-cases h.running) [
            | inl on ↦ rw on (omega (arith, same h))
            | inr off ↦ rw off (omega arith)
          ])
    serve-registrations ((now, after, request) ∷ rest) conn h h' responses same e =
        elim (Bool-cases h.running) [
          | inr off ↦
              subst
                (λ (x : List (Response p c) × Head p c).
                  count conn x.1.worker_conns ≡ count conn h.worker_conns + registrations x.0)
                (some-injective _ _ (rw (serve, off) at e)) (omega arith)
          | inl on ↦
              let ((response, h₁), first, e₁) =
                >>=-eq-some (dispatch p c now after request conn (others h)) _
                  (rw (serve, on) at e) in
              let ((responses', h₂), more, e₂) = >>=-eq-some (serve p c others rest conn h₁) _ e₁ in
              subst
                (λ (x : List (Response p c) × Head p c).
                  count conn x.1.worker_conns ≡ count conn h.worker_conns + registrations x.0)
                (some-injective _ _ e₂)
                (omega (
                  arith,
                  same h,
                  dispatch-Registers now after request conn (others h) h₁ response first,
                  serve-registrations rest conn h₁ h₂ responses' same more,
                ))
        ]

    -- A conversation in which the head's other threads leave a connection's registration alone ends
    -- with the connection registered as often as before and once more for each registration that was
    -- answered, less one: not at all, where it was new and registered once at most.
    pub handle_connection-registrations :
        (requests : List (c.Time × c.Time × Request p c)) (conn : ℕ) (h h' : Head p c)
        (responses : List (Response p c))
        → ((x : Head p c) → count conn (others x).worker_conns ≡ count conn x.worker_conns)
        → handle_connection p c others requests conn h ≡ some (responses, h')
        → count conn h'.worker_conns ≡ count conn h.worker_conns + registrations responses - 1
    unfolding handle_connection disconnect
    handle_connection-registrations requests conn h h' responses same e =
        let ((responses₁, h₁), served, e₁) = >>=-eq-some (serve p c others requests conn h) _ e in
        subst
          (λ (x : List (Response p c) × Head p c).
            count conn x.1.worker_conns ≡ count conn h.worker_conns + registrations x.0 - 1)
          (some-injective _ _ e₁)
          (omega (
            arith,
            count-remove conn h₁.worker_conns,
            serve-registrations requests conn h h₁ responses₁ same served,
          ))
