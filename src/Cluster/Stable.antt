-- ===== src/Cluster/Stable.antt =====
-- What the head of a cluster of python/nano_ray records while clients and nodes go on: the meaning of
-- an object does not change.
use nano_ray.Prelude.{ℕ, ◌≡◌, refl, sym, subst, some, true}
use nano_ray.Values.{Value}
use nano_ray.ObjectStore
use nano_ray.ObjectStore.Laws.{content}
use nano_ray.Worker.{Platform}
use nano_ray.Driver.Meaning.{Denotes-Extends, Denotes-unique}
use nano_ray.Dashboard.{Clock}
use nano_ray.Head.{poll_task, task_result, disconnect}
use nano_ray.Cluster.System.{Cluster, Step, asks, polls, works, reports, leaves, Reach, then_step}
use nano_ray.Cluster.Growth.{
  HeadGrows, HeadGrows-refl, same-HeadGrows, HeadGrows-trans, dispatch-HeadGrows,
}
use nano_ray.Cluster.Values.{IsSound, Reach-IsSound, cluster-Denotes}

module _ (p : Platform) (c : Clock) where
  -- What comes after a state of the cluster.
  pub data Later (s : Cluster p c) : Cluster p c → Type 0 where
    now_here : Later s s
    after_step : {t u : Cluster p c} → Later s t → Step p c t u → Later s u

  pub Reach-Later :
      {sizes : ℕ → ℕ} {s t : Cluster p c} → Reach p c sizes s → Later s t → Reach p c sizes t
  Reach-Later run now_here = run
  Reach-Later run (after_step more st) = then_step (Reach-Later run more) st

  pub Later-trans : {s t u : Cluster p c} → Later s t → Later t u → Later s u
  Later-trans run now_here = run
  Later-trans run (after_step more st) = after_step (Later-trans run more) st

  Step-HeadGrows : (s t : Cluster p c) → IsSound p c s → Step p c s t → HeadGrows p c s.head t.head
  unfolding disconnect
  Step-HeadGrows s t h (asks now after request conn response head' client e same) =
      subst (λ (x : Cluster p c). HeadGrows p c s.head x.head) (sym same)
        (dispatch-HeadGrows p c now after request conn response s.head head' (s.nodes 0) h.no_locals
          (h.sound 0) e)
  Step-HeadGrows s t h (polls now after i conn response head' e same) =
      subst (λ (x : Cluster p c). HeadGrows p c s.head x.head) (sym same)
        (dispatch-HeadGrows p c now after poll_task conn response s.head head' (s.nodes 0)
          h.no_locals (h.sound 0) e)
  Step-HeadGrows s t h (works i before after m e same) =
      subst (λ (x : Cluster p c). HeadGrows p c s.head x.head) (sym same)
        (HeadGrows-refl p c s.head)
  Step-HeadGrows s t h (reports now after i conn report rest response head' queue e same) =
      subst (λ (x : Cluster p c). HeadGrows p c s.head x.head) (sym same)
        (dispatch-HeadGrows p c now after (task_result report) conn response s.head head'
          (s.nodes 0) h.no_locals (h.sound 0) e)
  Step-HeadGrows s t h (leaves conn same) =
      subst (λ (x : Cluster p c). HeadGrows p c s.head x.head) (sym same)
        (same-HeadGrows p c s.head (disconnect p c conn s.head) refl refl)

  pub Later-HeadGrows :
      (sizes : ℕ → ℕ) {s t : Cluster p c}
      → Reach p c sizes s
      → Later s t
      → HeadGrows p c s.head t.head
  Later-HeadGrows sizes {s} run now_here = HeadGrows-refl p c s.head
  Later-HeadGrows sizes {s} {t = u} run (after_step {t} more st) =
      HeadGrows-trans p c (Later-HeadGrows sizes run more)
        (Step-HeadGrows t u (Reach-IsSound p c sizes t (Reach-Later run more)) st)

  pub Later-kept :
      (sizes : ℕ → ℕ) (s t : Cluster p c) (d : ℕ)
      → Reach p c sizes s
      → Later s t
      → ObjectStore.contains d s.head.object_store ≡ true
      → ObjectStore.contains d t.head.object_store ≡ true
  Later-kept sizes s t d run more there = (Later-HeadGrows sizes run more).kept d there

  -- In a cluster whose head has no local workers, a stored object has the same value in every later
  -- state in which it is stored.
  pub cluster_stored_again :
      (sizes : ℕ → ℕ) (s t : Cluster p c) (o : ℕ) (v v' : Value)
      → Reach p c sizes s
      → Later s t
      → content s.head.object_store o ≡ some v
      → content t.head.object_store o ≡ some v'
      → v ≡ v'
  cluster_stored_again sizes s t o v v' run more e e' =
      Denotes-unique p
        (Denotes-Extends p (Later-HeadGrows sizes run more).recorded
          (cluster-Denotes p c sizes s o v run e))
        (cluster-Denotes p c sizes t o v' (Reach-Later run more) e')
