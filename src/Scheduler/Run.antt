-- ===== src/Scheduler/Run.antt =====
-- Histories of calls on a scheduler of python/nano_ray/_fallback/scheduler.py.
use nano_ray.Prelude.{ℕ, List, [], ◌∷◌, ◌++◌, Option, none, some}
use nano_ray.Values.{TaskSpec}
use nano_ray.Scheduler.{Scheduler, submit, on_object_ready, pop_ready_task}

pub data Call : Type 0 where
  submits : (spec : TaskSpec) (dependencies : Option (List ℕ)) → Call
  readies : (object_id : ℕ) → Call
  pops : Call

unfoldable pub step : Scheduler → Call → Scheduler
step s (submits spec deps) = submit spec deps s
step s (readies o) = on_object_ready o s
step s pops = (pop_ready_task s).1

unfoldable pub run : Scheduler → List Call → Scheduler
unfolding step
run s [] = s
run s (c ∷ cs) = run (step s c) cs

-- What a history was given, and what it handed out.
unfoldable pub submitted : List Call → List TaskSpec
submitted [] = []
submitted (submits spec deps ∷ cs) = spec ∷ submitted cs
submitted (readies o ∷ cs) = submitted cs
submitted (pops ∷ cs) = submitted cs

unfoldable pub answer : Scheduler → Call → List TaskSpec
answer s (submits spec deps) = []
answer s (readies o) = []
answer s pops = elim (pop_ready_task s).0 [ none ↦ [] | some spec ↦ spec ∷ [] ]

unfoldable pub popped : Scheduler → List Call → List TaskSpec
unfolding answer step
popped s [] = []
popped s (c ∷ cs) = answer s c ++ popped (step s c) cs
