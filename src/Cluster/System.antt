-- ===== src/Cluster/System.antt =====
-- A cluster of python/nano_ray at work: clients, worker nodes and their worker processes, in any
-- order.
use nano_ray.Prelude.{ℕ, ◌≡◌, List, [], ◌∷◌, ◌++◌, Option, some, ◌==◌, if◌then◌else◌}
use nano_ray.Worker.{Platform, Message, Report, work}
use nano_ray.Dashboard.{Clock}
use nano_ray.Head
use nano_ray.Head.{
  Head, Request, register_worker, submits, get_object, contains_object, poll_task, task_result,
  unknown, Response, dispatch, disconnect,
}
use nano_ray.Cluster.{WorkerNode, init, take_response}

module _ (p : Platform) (c : Clock) where
  pub record Cluster : Type 0 where
    pub head : Head p c
    pub nodes : ℕ → WorkerNode p c

  abbrev pub update : (ℕ → WorkerNode p c) → ℕ → WorkerNode p c → ℕ → WorkerNode p c
  update nodes i n j = if j == i then n else nodes j

  -- What clients ask for, and nodes when they join.
  abbrev pub IsClient : Request p c → Type 0
  IsClient poll_task = ⊥
  IsClient (task_result report) = ⊥
  IsClient _ = Unit

  pub data Step (s t : Cluster) : Type 0 where
    asks :
        (now after : c.Time) (request : Request p c) (conn : ℕ) (response : Response p c)
        (head' : Head p c)
        → IsClient request
        → dispatch p c now after request conn s.head ≡ some (response, head')
        → t ≡ record s { head = head' }
        → Step s t
    polls :
        (now after : c.Time) (i conn : ℕ) (response : Response p c) (head' : Head p c)
        → dispatch p c now after poll_task conn s.head ≡ some (response, head')
        → t ≡ record {
          head = head';
          nodes = update s.nodes i (take_response p c response (s.nodes i));
        }
        → Step s t
    works :
        (i : ℕ) (before after : List (Option (Message p))) (m : Message p)
        → (s.nodes i).task_queue ≡ before ++ some m ∷ after
        → t ≡ record s {
          nodes = update s.nodes i (record (s.nodes i) {
            task_queue = before ++ after;
            result_queue = (s.nodes i).result_queue ++ work p m ∷ [];
          });
        }
        → Step s t
    reports :
        (now after : c.Time) (i conn : ℕ) (report : Report p) (rest : List (Report p))
        (response : Response p c) (head' : Head p c)
        → (s.nodes i).result_queue ≡ report ∷ rest
        → dispatch p c now after (task_result report) conn s.head ≡ some (response, head')
        → t ≡ record {
          head = head';
          nodes = update s.nodes i (record (s.nodes i) { result_queue = rest });
        }
        → Step s t
    leaves : (conn : ℕ) → t ≡ record s { head = disconnect p c conn s.head } → Step s t

  -- A fresh head without local workers; the nodes may have any number of workers.
  abbrev pub fresh : (ℕ → ℕ) → Cluster
  fresh sizes = record { head = Head.init p c 0; nodes = λ i. init p c (sizes i) }

  pub data Reach (sizes : ℕ → ℕ) : Cluster → Type 0 where
    at_start : Reach sizes (fresh sizes)
    then_step : {s t : Cluster} → Reach sizes s → Step s t → Reach sizes t
