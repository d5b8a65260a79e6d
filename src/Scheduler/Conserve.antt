-- ===== src/Scheduler/Conserve.antt =====
-- The tasks that a scheduler holds: none is lost or duplicated by a call.
use mathlib.Core.List.{Perm, perm_middle, perm_append_comm}
use mathlib.Core.List.Perm
use nano_ray.Prelude.{
  ℕ, subst, ◌≡◌, refl, List, [], ◌∷◌, ◌++◌, map, append-nil, append_assoc, Option, none, some,
  arith, discard, is_empty, inl, inr, Bool-cases, Option-cases, set_of,
}
use nano_ray.Prelude.Dict.{
  Dict, lookup, values, IsUnique, insert-IsUnique, erase-IsUnique, values-erase-perm,
  map-values-insert, map-values-insert_absent,
}
use nano_ray.Values.{TaskSpec}
use nano_ray.Scheduler.{
  Scheduler, Pending, init, submit, unblock, unblock_all, on_object_ready, pop_ready_task,
}
use nano_ray.Scheduler.Index.{pop_ready_task_tables}
use nano_ray.Scheduler.Run.{Call, submits, readies, pops, step, run, submitted, answer, popped}

abbrev pub waiting_specs : Dict Pending → List TaskSpec
waiting_specs d = map (λ p. p.spec) (values d)

-- The tasks that were submitted and not handed out: ready ones, then waiting ones.
abbrev pub held : Scheduler → List TaskSpec
held s = s.ready_queue ++ waiting_specs s.pending_tasks

unblock-IsUnique :
    (o t : ℕ) (s : Scheduler) → IsUnique s.pending_tasks → IsUnique (unblock o t s).pending_tasks
unfolding unblock
unblock-IsUnique o t s u = elim (Option-cases (lookup t s.pending_tasks)) [
  | inl e ↦ rw (e, unblock) u
  | inr (p, e) ↦ elim (Bool-cases (is_empty (discard o p.unresolved))) [
    | inl done ↦ rw (e, unblock, done) (erase-IsUnique t s.pending_tasks u)
    | inr more ↦ rw (e, unblock, more) (insert-IsUnique t _ s.pending_tasks u)
  ]
]

unblock-perm :
    (o t : ℕ) (s : Scheduler) → IsUnique s.pending_tasks → Perm (held (unblock o t s)) (held s)
unfolding unblock
unblock-perm o t s u = elim (Option-cases (lookup t s.pending_tasks)) [
  | inl e ↦ rw (e, unblock) Perm.rfl
  | inr (p, e) ↦ elim (Bool-cases (is_empty (discard o p.unresolved))) [
    | inl done ↦
        rw (e, unblock, done, append_assoc)
          (Perm.append_left s.ready_queue
            (Perm.symm (Perm.map _ (values-erase-perm t p s.pending_tasks u e))))
    | inr more ↦
        rw
          (
            e,
            unblock,
            more,
            map-values-insert (λ (q : Pending). q.spec) t p
                (record p { unresolved = discard o p.unresolved }) s.pending_tasks e refl,
          )
          Perm.rfl
  ]
]

unblock_all-IsUnique :
    (o : ℕ) (ts : List ℕ) (s : Scheduler)
    → IsUnique s.pending_tasks
    → IsUnique (unblock_all o ts s).pending_tasks
unfolding unblock_all
unblock_all-IsUnique o [] s u = u
unblock_all-IsUnique o (t ∷ ts) s u =
    unblock_all-IsUnique o ts (unblock o t s) (unblock-IsUnique o t s u)

unblock_all-perm :
    (o : ℕ) (ts : List ℕ) (s : Scheduler)
    → IsUnique s.pending_tasks
    → Perm (held (unblock_all o ts s)) (held s)
unfolding unblock_all
unblock_all-perm o [] s u = Perm.rfl
unblock_all-perm o (t ∷ ts) s u =
    Perm.trans (unblock_all-perm o ts (unblock o t s) (unblock-IsUnique o t s u))
      (unblock-perm o t s u)

-- An object's arrival moves tasks from the table to the ready queue; it keeps each exactly once.
pub on_object_ready-perm :
    (o : ℕ) (s : Scheduler) → IsUnique s.pending_tasks → Perm (held (on_object_ready o s)) (held s)
unfolding on_object_ready
on_object_ready-perm o s u = unblock_all-perm o _ _ u

submit_ready :
    (spec : TaskSpec) (s : Scheduler)
    → Perm ((s.ready_queue ++ spec ∷ []) ++ waiting_specs s.pending_tasks) (spec ∷ held s)
submit_ready spec s = rw append_assoc (perm_middle s.ready_queue _)

pub submit-perm :
    (spec : TaskSpec) (deps : Option (List ℕ)) (s : Scheduler)
    → lookup spec.task_id s.pending_tasks ≡ none
    → Perm (held (submit spec deps s)) (spec ∷ held s)
unfolding submit
submit-perm spec none s fresh = submit_ready spec s
submit-perm spec (some []) s fresh = submit_ready spec s
submit-perm spec (some (dep ∷ deps)) s fresh =
    rw
      (
        map-values-insert_absent (λ (q : Pending). q.spec) spec.task_id fresh_entry s.pending_tasks
            fresh,
        ← append_assoc,
      )
      (perm_append_comm (held s) (spec ∷ []))
  where
    fresh_entry : Pending
    fresh_entry = record { spec = spec; unresolved = set_of (dep ∷ deps) }

submit-IsUnique :
    (spec : TaskSpec) (deps : Option (List ℕ)) (s : Scheduler)
    → IsUnique s.pending_tasks
    → IsUnique (submit spec deps s).pending_tasks
unfolding submit
submit-IsUnique spec none s u = u
submit-IsUnique spec (some []) s u = u
submit-IsUnique spec (some (dep ∷ deps)) s u = insert-IsUnique spec.task_id _ s.pending_tasks u

-- A pop hands the first ready task out.
pop-held : (s : Scheduler) → answer s pops ++ held (step s pops) ≡ held s
unfolding answer step pop_ready_task
pop-held s = ground arith

pub step-IsUnique :
    (s : Scheduler) (c : Call) → IsUnique s.pending_tasks → IsUnique (step s c).pending_tasks
unfolding step on_object_ready
step-IsUnique s (submits spec deps) u = submit-IsUnique spec deps s u
step-IsUnique s (readies o) u = unblock_all-IsUnique o _ _ u
step-IsUnique s pops u = rw (pop_ready_task_tables s).0 u

-- No task is submitted under the id of one that still waits. The drivers count their ids up.
abbrev pub IsFresh : Scheduler → List Call → Type 0
IsFresh s [] = Unit
IsFresh s (submits spec deps ∷ cs) =
    (lookup spec.task_id s.pending_tasks ≡ none) × IsFresh (step s (submits spec deps)) cs
IsFresh s (readies o ∷ cs) = IsFresh (step s (readies o)) cs
IsFresh s (pops ∷ cs) = IsFresh (step s pops) cs

hand_out :
    (a p r c h' : List TaskSpec) {h : List TaskSpec}
    → a ++ h' ≡ h
    → Perm (p ++ r) (c ++ h')
    → Perm ((a ++ p) ++ r) (c ++ h)
hand_out a p r c h' e q =
    rw (append_assoc a p r, ← e)
      (Perm.trans (Perm.append_left a q) (
        rw (← append_assoc a c h', ← append_assoc c a h')
          (Perm.append_right h' (perm_append_comm a c))))

pub run-perm :
    (s : Scheduler) (cs : List Call)
    → IsUnique s.pending_tasks
    → IsFresh s cs
    → Perm (popped s cs ++ held (run s cs)) (submitted cs ++ held s)
unfolding run popped submitted
run-perm s [] u f = Perm.rfl
run-perm s (submits spec deps ∷ cs) u f =
    Perm.trans (run-perm (submit spec deps s) cs (submit-IsUnique spec deps s u) f.1) (
      Perm.trans (Perm.append_left (submitted cs) (submit-perm spec deps s f.0))
        (perm_middle (submitted cs) (held s)))
run-perm s (readies o ∷ cs) u f =
    Perm.trans (run-perm (on_object_ready o s) cs (step-IsUnique s (readies o) u) f)
      (Perm.append_left (submitted cs) (on_object_ready-perm o s u))
run-perm s (pops ∷ cs) u f =
    hand_out (answer s pops) (popped (step s pops) cs) (held (run (step s pops) cs)) (submitted cs)
      (held (step s pops)) (pop-held s) (run-perm (step s pops) cs (step-IsUnique s pops u) f)

-- A scheduler hands every submitted task out at most once and loses none: after any history in
-- which no task is submitted under the id of one that still waits, the tasks handed out and those
-- still held are the submitted ones, each as often as it was submitted.
pub run-init-perm :
    (cs : List Call) → IsFresh init cs → Perm (popped init cs ++ held (run init cs)) (submitted cs)
unfolding init
run-init-perm cs f =
    subst (Perm (popped init cs ++ held (run init cs))) (append-nil (submitted cs))
      (run-perm init cs tt f)

pub run-IsUnique :
    (s : Scheduler) (cs : List Call) → IsUnique s.pending_tasks → IsUnique (run s cs).pending_tasks
unfolding run
run-IsUnique s [] u = u
run-IsUnique s (c ∷ cs) u = run-IsUnique (step s c) cs (step-IsUnique s c u)
