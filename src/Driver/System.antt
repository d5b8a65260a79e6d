-- ===== src/Driver/System.antt =====
-- A runtime of python/nano_ray/driver.py at work: user calls, worker processes and the collector,
-- in any order.
use nano_ray.Prelude.{ℕ, ◌≡◌, List, [], ◌∷◌, ◌++◌, Option, some}
use nano_ray.Values.{Items, Fields, Func}
use nano_ray.Worker.{Platform, Message, Report, work}
use nano_ray.Driver.{Runtime, submit_task, collect, evict_object}
use nano_ray.Answers.{done}
use nano_ray.Ownership.{get_producer_task, get_task_lineage}
use nano_ray.Driver.Recovery.{send_again}

module _ (p : Platform) where
  pub data Step (r r' : Runtime p) : Type 0 where
    -- The user submits a task.
    submits :
        (func : Func) (args : Items) (kwargs : Fields) (object_id : ℕ)
        → submit_task p func args kwargs r ≡ some (object_id, r')
        → Step r r'
    -- A worker has run a task. Workers run side by side, so any task may be the next to finish. The
    -- step is open to a runtime that is not started too, which only adds runs to those that must be
    -- safe; Driver.Works asks for a worker.
    finishes :
        (before after : List (Option (Message p))) (m : Message p)
        → r.task_queue ≡ before ++ some m ∷ after
        → r' ≡ record r {
          task_queue = before ++ after;
          result_queue = r.result_queue ++ work p m ∷ [];
        }
        → Step r r'
    -- The collector takes a report in.
    collects :
        (report : Report p) (rest : List (Report p))
        → r.result_queue ≡ report ∷ rest
        → collect p report (record r { result_queue = rest }) ≡ some r'
        → Step r r'
    -- The task of a lost object is sent once more, from its lineage.
    resends :
        (task_id object_id : ℕ) (bytes : p.Bytes) (deps : List ℕ)
        → get_producer_task object_id r.ownership ≡ some task_id
        → get_task_lineage task_id r.ownership ≡ some (bytes, deps)
        → send_again p task_id object_id bytes r ≡ done r'
        → Step r r'

  -- The user drops an object from the store.
  pub data Evicts (r r' : Runtime p) : Type 0 where
    evicts : (object_id : ℕ) → r' ≡ (evict_object p object_id r).1 → Evicts r r'

  pub data Steps (r : Runtime p) : Runtime p → Type 0 where
    here : Steps r r
    next : {r' r'' : Runtime p} → Steps r r' → Step r' r'' → Steps r r''

  -- With evictions too.
  pub data Lossy (r : Runtime p) : Runtime p → Type 0 where
    lossless : Lossy r r
    steps : {r' r'' : Runtime p} → Lossy r r' → Step r' r'' → Lossy r r''
    loses : {r' r'' : Runtime p} → Lossy r r' → Evicts r' r'' → Lossy r r''

  pub Steps-trans : {a b c : Runtime p} → Steps a b → Steps b c → Steps a c
  Steps-trans run here = run
  Steps-trans run (next more s) = next (Steps-trans run more) s
