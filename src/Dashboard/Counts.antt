-- ===== src/Dashboard/Counts.antt =====
-- What the numbers of python/nano_ray/dashboard.py say.
use nano_ray.Prelude.{
  ℕ, ◌+◌, ◌-◌, ◌≤◌, ◌≡◌, List, [], ◌∷◌, ◌++◌, arith, length, length-append, length-drop,
  Option-cases, inl, inr,
}
use nano_ray.Prelude.Dict.{lookup}
use nano_ray.Dashboard.{
  Clock, DashboardMetrics, init, on_task_submitted, recent_with, on_task_completed, on_task_failed,
  set_worker_count, set_objects_stored, pending,
}

module _ (c : Clock) where
  pub data Event : Type 0 where
    submitted : (now : c.Time) (task_id : ℕ) → Event
    completed : (now after : c.Time) (task_id : ℕ) → Event
    failed : (task_id : ℕ) → Event
    workers : (count : ℕ) → Event
    objects : (count : ℕ) → Event

  unfoldable pub on_event : DashboardMetrics c → Event → DashboardMetrics c
  on_event m (submitted now t) = on_task_submitted c now t m
  on_event m (completed now after t) = on_task_completed c now after t m
  on_event m (failed t) = on_task_failed c t m
  on_event m (workers n) = set_worker_count c n m
  on_event m (objects n) = set_objects_stored c n m

  unfoldable pub on_events : DashboardMetrics c → List Event → DashboardMetrics c
  unfolding on_event
  on_events m [] = m
  on_events m (e ∷ es) = on_events (on_event m e) es

  pub record CountsOk (m : DashboardMetrics c) : Type 0 where
    pub accounted : m.tasks_submitted ≤ m.tasks_completed + m.tasks_failed + m.tasks_running
    pub kept : length m.recent_completions ≤ 100

  length-recent_with :
      (x : c.Time × ℕ × c.Duration) (xs : List (c.Time × ℕ × c.Duration))
      → length xs ≤ 100
      → length (recent_with c x xs) ≤ 100
  unfolding recent_with
  length-recent_with x xs h =
      ground
        (arith, length-append xs (x ∷ []), length-drop (length (xs ++ x ∷ []) - 100) (xs ++ x ∷ []))

  on_event-CountsOk : (m : DashboardMetrics c) (e : Event) → CountsOk m → CountsOk (on_event m e)
  unfolding on_event on_task_submitted on_task_completed on_task_failed set_worker_count
      set_objects_stored
  on_event-CountsOk m (submitted now t) h = record {
    accounted = ground (arith, h.accounted);
    kept = h.kept;
  }
  on_event-CountsOk m (completed now after t) h =
      elim (Option-cases (lookup t m.task_submit_times)) [
        | inl e ↦
            rw (e, on_task_completed)
              (record { accounted = ground (arith, h.accounted); kept = h.kept })
        | inr (s, e) ↦
            rw (e, on_task_completed)
              (record {
                accounted = ground (arith, h.accounted);
                kept = length-recent_with _ m.recent_completions h.kept;
              })
      ]
  on_event-CountsOk m (failed t) h = record {
    accounted = ground (arith, h.accounted);
    kept = h.kept;
  }
  on_event-CountsOk m (workers n) h = record { accounted = h.accounted; kept = h.kept }
  on_event-CountsOk m (objects n) h = record { accounted = h.accounted; kept = h.kept }

  on_events-CountsOk :
      (m : DashboardMetrics c) (es : List Event) → CountsOk m → CountsOk (on_events m es)
  unfolding on_events
  on_events-CountsOk m [] h = h
  on_events-CountsOk m (e ∷ es) h = on_events-CountsOk (on_event m e) es (on_event-CountsOk m e h)

  -- After any history of events, at most 100 completions are kept, and the number of pending tasks
  -- on display is 0: a task counts as running from its submission on.
  pub pending_zero :
      (now : c.Time) (es : List Event)
      → (length (on_events (init c now) es).recent_completions ≤ 100)
        × (pending c (on_events (init c now) es) ≡ 0)
  unfolding pending init
  pending_zero now es =
      let h =
        on_events-CountsOk (init c now) es
          (record { accounted = ground arith; kept = ground arith }) in
      (h.kept, ground (arith, h.accounted))
