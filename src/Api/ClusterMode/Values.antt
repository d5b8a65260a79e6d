-- ===== src/Api/ClusterMode/Values.antt =====
-- What `get` of python/nano_ray/api.py gives in cluster mode.
use nano_ray.Prelude.{
  ℕ, ◌≡◌, refl, List, [], ◌∷◌, Option, some, true, arith, All, All-map, ◌⊎◌, inl, inr, Option-cases,
}
use Prim.Native.String.{String}
use nano_ray.Answers.{Answer, done, failed, task_raised, ◌>>=◌}
use nano_ray.Values.{Value}
use nano_ray.ObjectStore
use nano_ray.ObjectStore.{ObjectStore}
use nano_ray.ObjectStore.Laws.{content, contains-content, get_now-content}
use nano_ray.Worker.{Platform}
use nano_ray.Driver.Meaning.{AllDenote, Denotes-Extends}
use nano_ray.Driver.Recovery.{checked}
use nano_ray.Dashboard.{Clock}
use nano_ray.Head.{dispatch}
use nano_ray.Client
use nano_ray.Client.{RemoteRuntime, send_recv, get_answer}
use nano_ray.Cluster.System.{Cluster, Reach}
use nano_ray.Cluster.Values.{cluster-Denotes}
use nano_ray.Cluster.Stable.{Later, now_here, Later-trans, Reach-Later, Later-HeadGrows}
use nano_ray.Api.Get.{checked-cases}
use nano_ray.Api.ClusterMode.{fetch, get_all, get_list}

module _ (p : Platform) (c : Clock) where
  -- The contract of `wait_for`: clients, nodes and their processes take steps.
  abbrev pub IsMeanwhile : (ℕ → Cluster p c → Cluster p c) → Type 0
  IsMeanwhile wait_for = (o : ℕ) (s : Cluster p c) → Later p c s (wait_for o s)

  module _ (sizes : ℕ → ℕ) (wait_for : ℕ → Cluster p c → Cluster p c) (now after : c.Time)
      (conn : ℕ) where
    -- The wait for the object ends, from this state on.
    abbrev pub Arrives : Cluster p c → ℕ → Type 0
    Arrives s o =
        (t : Cluster p c)
        → Later p c s t
        → ObjectStore.contains o (wait_for o t).head.object_store ≡ true

    there_value :
        (o : ℕ) (store : ObjectStore)
        → ObjectStore.contains o store ≡ true
        → (v : Value) × (content store o ≡ some v)
    there_value o store there = elim (Option-cases (content store o)) [
      | inl never ↦ absurd (ground (arith, contains-content o store))
      | inr found ↦ found
    ]

    fetch-found :
        (o : ℕ) (timeout : Option ℕ) (r : RemoteRuntime) (s : Cluster p c) (v : Value)
        → r.connected ≡ true
        → content (wait_for o s).head.object_store o ≡ some v
        → fetch p c wait_for now after conn o timeout r s
          ≡ (checked v >>= λ x. done (x, wait_for o s))
    unfolding Client.get_object send_recv dispatch get_answer
    fetch-found o timeout r s v on there = elim (checked-cases v) [
      | inl good ↦
          rw
            (
              Client.get_object,
              send_recv,
              on,
              dispatch,
              get_now-content o _,
              there,
              get_answer,
              good,
            )
            refl
      | inr (t, msg, bad) ↦
          rw
            (
              Client.get_object,
              send_recv,
              on,
              dispatch,
              get_now-content o _,
              there,
              get_answer,
              bad,
            )
            refl
    ]

    -- What a list of references comes to: the values of all of them, or the failure of a task.
    abbrev pub Comes : Answer (List Value × Cluster p c) → List ℕ → Cluster p c → Type 0
    Comes answer refs s =
        ((vs : List Value) × (s' : Cluster p c) × (answer ≡ done (vs, s'))
          × Later p c s s'
          × AllDenote p s'.head.ownership refs vs)
        ⊎ ((t : ℕ) × (msg : String) × (answer ≡ failed (task_raised t msg)))

    -- A client gets the values of a list of references from a cluster whose head has no local
    -- workers: if the wait for each of the objects ends, `get` comes back, with any timeout, with the
    -- values of the references' tasks in the order of the list, or with the failure of a task.
    pub cluster_get_list-total :
        (refs : List ℕ) (timeout : Option ℕ) (r : RemoteRuntime) (s : Cluster p c)
        → IsMeanwhile wait_for
        → r.connected ≡ true
        → All (Arrives s) refs
        → Reach p c sizes s
        → Comes (get_list p c wait_for now after conn refs timeout (some r) s) refs s
    unfolding get_list get_all
    cluster_get_list-total [] timeout r s w on h run = inl ([], s, refl, now_here, tt)
    cluster_get_list-total (ref ∷ refs) timeout r s w on h run =
        let s₁ = wait_for ref s in
        let (v, there) = there_value ref s₁.head.object_store (h.0 s now_here) in
        let rest =
          All-map refs (λ o arrives t more. arrives t (Later-trans p c (w ref s) more)) h.1 in
        let run₁ = Reach-Later p c run (w ref s) in
        let found = fetch-found ref timeout r s v on there in
        elim (checked-cases v) [
          | inr (t, msg, bad) ↦ inr (t, msg, rw (found, bad) refl)
          | inl good ↦ elim (cluster_get_list-total refs timeout r s₁ w on rest run₁) [
            | inr (t, msg, bad) ↦ inr (t, msg, rw (found, good) (rw bad refl))
            | inl (vs, s₂, all, more, values) ↦ inl (
              v ∷ vs,
              s₂,
              rw (found, good) (rw all refl),
              Later-trans p c (w ref s) more,
              (
                Denotes-Extends p (Later-HeadGrows p c sizes run₁ more).recorded
                    (cluster-Denotes p c sizes s₁ ref v run₁ there),
                values,
              ),
            )
          ]
        ]
