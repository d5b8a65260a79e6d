-- ===== src/Head/Polling.antt =====
-- Worker nodes that poll a head (python/nano_ray/head.py), against the flush of a local runtime
-- (python/nano_ray/driver.py).
use nano_ray.Prelude.{
  ℕ, zero, suc, ◌≡◌, refl, sym, ◌∙◌, ap, List, [], ◌∷◌, ◌++◌, Option, none, some, length, inl, inr,
  Option-cases, append_assoc, append-nil,
}
use mathlib.Core.List.{map}
use nano_ray.Prelude.Maybe.{◌>>=◌, map_some}
use nano_ray.Values.{TaskSpec}
use nano_ray.ObjectStore
use nano_ray.Dag.{resolve_args}
use nano_ray.Worker.{Platform, Message}
use nano_ray.Driver
use nano_ray.Driver.{Runtime}
use nano_ray.Driver.Flush.{flush_one, flush_stuck, message}
use nano_ray.Scheduler.Index.{pop_ready_task_first}
use nano_ray.Scheduler.{Scheduler}
use nano_ray.Dashboard.{Clock}
use nano_ray.Head.{Head, Response, task, prepare_task, poll, poll_popped}
use nano_ray.Head.Agreement.{as_runtime}

module _ (p : Platform) (c : Clock) where
  abbrev tasks_in : Response p c → List (Message p)
  tasks_in (task m) = m ∷ []
  tasks_in _ = []

  -- `n` polls one after the other: the tasks given out, and the head.
  unfoldable pub polls : ℕ → Head p c → Option (List (Message p) × Head p c)
  polls zero h = some ([], h)
  polls (suc n) h = poll p c h >>= λ (response, h').
      polls n h' >>= λ (ms, h''). some (tasks_in response ++ ms, h'')

  after_one : TaskSpec → List TaskSpec → Head p c → Head p c
  after_one spec specs h = record h { scheduler = record h.scheduler { ready_queue = specs } }

  poll_first :
      (spec : TaskSpec) (specs : List TaskSpec) (h : Head p c)
      → h.scheduler.ready_queue ≡ spec ∷ specs
      → poll p c h ≡ (
          prepare_task p c spec (after_one spec specs h) >>= λ m.
          some (task m, after_one spec specs h))
  unfolding poll after_one
  poll_first spec specs h e =
      ap (λ (x : Option TaskSpec × Scheduler). poll_popped p c x.0 (record h { scheduler = x.1 }))
        (pop_ready_task_first h.scheduler spec specs e)

  abbrev pub sent : List (Option (Message p)) → List (Message p) × Head p c → Runtime p
  sent queue (ms, h) = as_runtime p c (queue ++ map some ms) h

  sent_after :
      (m : Message p) (queue : List (Option (Message p))) (x : Option (List (Message p) × Head p c))
      → map_some (sent queue) (x >>= λ (ms, h). some (tasks_in (task m) ++ ms, h))
        ≡ map_some (sent (queue ++ some m ∷ [])) x
  sent_after m queue none = refl
  sent_after m queue (some (ms, h)) =
      ap (λ q. some (as_runtime p c q h)) (sym (append_assoc queue (some m ∷ []) (map some ms)))

  polls-flush_rounds :
      (ready : List TaskSpec) (queue : List (Option (Message p))) (h : Head p c)
      → h.scheduler.ready_queue ≡ ready
      → map_some (sent queue) (polls (length ready) h)
        ≡ Driver.flush_rounds p (length ready) (as_runtime p c queue h)
  unfolding polls Driver.flush_rounds after_one prepare_task
  polls-flush_rounds [] queue h e = ap (λ q. some (as_runtime p c q h)) (append-nil queue)
  polls-flush_rounds (spec ∷ specs) queue h e =
      elim (Option-cases
        (resolve_args (λ o. ObjectStore.get_now o h.object_store) spec.args spec.kwargs)) [
          | inl stuck ↦
              rw
                (
                  poll_first spec specs h e,
                  flush_stuck p spec specs (length specs) (as_runtime p c queue h) e stuck,
                )
                (rw (prepare_task, stuck) refl)
          | inr ((a, k), found) ↦
              rw
                (
                  poll_first spec specs h e,
                  flush_one p spec specs a k (length specs) (as_runtime p c queue h) e found,
                )
                (rw (prepare_task, found)
                  (sent_after (message p spec a k) queue
                      (polls (length specs) (after_one spec specs h))
                    ∙ polls-flush_rounds specs (queue ++ some (message p spec a k) ∷ [])
                        (after_one spec specs h) refl))
        ]

  -- Worker nodes that poll a head once for each ready task get, in order, the messages that the
  -- flush of a local runtime with the same state puts into its task queue; and the head is left with
  -- the state that the runtime is left with. Neither returns if an argument is not there.
  pub polls-flush_ready_tasks :
      (queue : List (Option (Message p))) (h : Head p c)
      → map_some (sent queue) (polls (length h.scheduler.ready_queue) h)
        ≡ Driver.flush_ready_tasks p (as_runtime p c queue h)
  unfolding Driver.flush_ready_tasks
  polls-flush_ready_tasks queue h = polls-flush_rounds h.scheduler.ready_queue queue h refl
