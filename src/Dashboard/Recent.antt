-- ===== src/Dashboard/Recent.antt =====
-- The completions that python/nano_ray/dashboard.py keeps, against all that a history records.
use nano_ray.Prelude.{
  ℕ, zero, suc, ◌-◌, ◌≡◌, refl, sym, ◌∙◌, ap, subst, List, [], ◌∷◌, ◌++◌, none, some, ltb, min,
  length, drop, length-append, length-drop, append_assoc, append-nil, arith, inl, inr, Bool-cases,
  Option-cases,
}
use nano_ray.Prelude.Dict.{lookup}
use nano_ray.Dashboard.{
  Clock, DashboardMetrics, on_task_submitted, recent_with, on_task_completed, on_task_failed,
  set_worker_count, set_objects_stored, last,
}
use nano_ray.Dashboard.Counts.{
  Event, submitted, completed, failed, workers, objects, on_event, on_events,
}

drop_split {ℓ} : {A : Type ℓ} (n : ℕ) (xs : List A) → (front : List A) × (xs ≡ front ++ drop n xs)
drop_split zero xs = ([], refl)
drop_split (suc n) [] = ([], refl)
drop_split (suc n) (x ∷ xs) = let (front, e) = drop_split n xs in (x ∷ front, ap (λ l. x ∷ l) e)

-- `ys` are the last elements of `xs`: `n` of them, or all.
abbrev pub Newest {ℓ} : {A : Type ℓ} → ℕ → List A → List A → Type ℓ
Newest n xs ys = (older : List _) × (xs ≡ older ++ ys) × (length ys ≡ min n (length xs))

pub last-Newest {ℓ} : {A : Type ℓ} (n : ℕ) (xs : List A) → Newest n xs (last n xs)
last-Newest n xs =
    let (front, e) = drop_split (length xs - n) xs in
    (front, e, omega (arith, length-drop (length xs - n) xs))

module _ (c : Clock) where
  abbrev pub Completion : Type 0
  Completion = c.Time × ℕ × c.Duration

  -- The completions that a history records: of tasks whose submission is known.
  abbrev pub new_completion : DashboardMetrics c → Event c → List Completion
  new_completion m (completed now after t) = elim (lookup t m.task_submit_times) [
    | none ↦ []
    | some submit_time ↦ (after, t, c.duration_ms now submit_time) ∷ []
  ]
  new_completion m _ = []

  unfoldable pub completions : DashboardMetrics c → List (Event c) → List Completion
  unfolding on_event
  completions m [] = []
  completions m (e ∷ es) = new_completion m e ++ completions (on_event c m e) es

  recent_with-Newest :
      (x : Completion) (all recent : List Completion)
      → Newest 100 all recent
      → Newest 100 (all ++ x ∷ []) (recent_with c x recent)
  unfolding recent_with
  recent_with-Newest x all recent (older, split, size) =
      elim (Bool-cases (ltb 100 (length (recent ++ x ∷ [])))) [
        | inr fits ↦
            rw (recent_with, fits)
              (
                older,
                ap (λ l. l ++ x ∷ []) split ∙ append_assoc older recent (x ∷ []),
                ground (
                  arith,
                  size,
                  fits,
                  length-append recent (x ∷ []),
                  length-append all (x ∷ []),
                  length-append older recent,
                  ap length split,
                ),
              )
        | inl over ↦
            let k = length (recent ++ x ∷ []) - 100 in
            let (front, whole) = drop_split k (recent ++ x ∷ []) in
            rw (recent_with, over)
              (
                older ++ front,
                ap (λ l. l ++ x ∷ []) split
                    ∙ append_assoc older recent (x ∷ [])
                    ∙ ap (λ l. older ++ l) whole
                    ∙ sym (append_assoc older front (drop k (recent ++ x ∷ []))),
                ground (
                  arith,
                  size,
                  over,
                  length-append recent (x ∷ []),
                  length-append all (x ∷ []),
                  length-drop k (recent ++ x ∷ []),
                ),
              )
      ]

  on_event-Newest :
      (m : DashboardMetrics c) (e : Event c) (all : List Completion)
      → Newest 100 all m.recent_completions
      → Newest 100 (all ++ new_completion m e) (on_event c m e).recent_completions
  unfolding on_event on_task_submitted on_task_completed on_task_failed set_worker_count
      set_objects_stored
  on_event-Newest m (submitted now t) all h = rw (append-nil all) h
  on_event-Newest m (completed now after t) all h =
      elim (Option-cases (lookup t m.task_submit_times)) [
        | inl e ↦ rw (e, on_task_completed, new_completion) (rw (append-nil all) h)
        | inr (s, e) ↦
            rw (e, on_task_completed, new_completion)
              (recent_with-Newest _ all m.recent_completions h)
      ]
  on_event-Newest m (failed t) all h = rw (append-nil all) h
  on_event-Newest m (workers n) all h = rw (append-nil all) h
  on_event-Newest m (objects n) all h = rw (append-nil all) h

  pub on_events-Newest :
      (m : DashboardMetrics c) (es : List (Event c)) (all : List Completion)
      → Newest 100 all m.recent_completions
      → Newest 100 (all ++ completions m es) (on_events c m es).recent_completions
  unfolding on_events completions
  on_events-Newest m [] all h = rw (append-nil all) h
  on_events-Newest m (e ∷ es) all h =
      subst (λ l. Newest 100 l (on_events c (on_event c m e) es).recent_completions)
        (append_assoc all (new_completion m e) (completions (on_event c m e) es))
        (on_events-Newest (on_event c m e) es (all ++ new_completion m e)
          (on_event-Newest m e all h))
