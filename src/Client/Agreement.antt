-- ===== src/Client/Agreement.antt =====
-- What the calls of a client (python/nano_ray/remote_runtime.py) come to, through the head
-- (python/nano_ray/head.py).
use nano_ray.Prelude.{
  ℕ, ◌≡◌, refl, sym, ◌∙◌, ap, List, Option, none, some, true, arith, inl, inr, Bool-cases,
  Option-cases,
}
use nano_ray.Prelude.Maybe.{◌>>=◌ as ◌>>=?◌, map_some}
use nano_ray.Answers.{Answer, done, failed, blocked, ◌>>=◌, or_blocked, >>=-eq-done, done-injective}
use nano_ray.Values.{Value, Items, Fields, Func}
use nano_ray.ObjectStore
use nano_ray.ObjectStore.Laws.{content, get_now-content}
use nano_ray.Worker.{Platform, Message}
use nano_ray.Driver
use nano_ray.Driver.{Runtime}
use nano_ray.Driver.Meaning.{Denotes}
use nano_ray.Driver.Recovery.{checked, checked-eq-done}
use nano_ray.Dashboard.{Clock}
use nano_ray.Head
use nano_ray.Head.{Head, dispatch, Response, value}
use nano_ray.Head.Agreement.{as_runtime, to_runtime, with_id, submit_task-to_runtime}
use nano_ray.Cluster.System.{Cluster, Reach}
use nano_ray.Cluster.Values.{cluster-Denotes}
use nano_ray.Client.{RemoteRuntime, send_recv, submit_answer, get_answer, submit_task, get_object}

module _ (p : Platform) (c : Clock) where
  abbrev pub as_local : Answer (ℕ × Head p c) → Answer (ℕ × Runtime p)
  as_local (done (o, h)) = done (o, to_runtime p c h)
  as_local (failed e) = failed e
  as_local blocked = blocked

  answered :
      (m : Option (ℕ × Head p c))
      → as_local (
          or_blocked (m >>=? λ (o, h'). some (Head.object_id o, h')) >>= λ (response, h').
          submit_answer p c response >>= λ o. done (o, h'))
        ≡ or_blocked (map_some (with_id p c) m)
  unfolding submit_answer
  answered none = refl
  answered (some (o, h)) = refl

  -- A client submits a task to a head with local workers: what comes of it is, up to the metrics,
  -- what a submission to the local runtime with the head's state comes to.
  pub submit_task-local :
      (now after : c.Time) (conn : ℕ) (func : Func) (args : Items) (kwargs : Fields)
      (queue : List (Option (Message p))) (r : RemoteRuntime) (h : Head p c)
      → r.connected ≡ true
      → h.local_task_queue ≡ some queue
      → as_local (submit_task p c now after conn func args kwargs r h)
        ≡ or_blocked (Driver.submit_task p func args kwargs (as_runtime p c queue h))
  unfolding submit_task send_recv dispatch
  submit_task-local now after conn func args kwargs queue r h connected e =
      rw (submit_task, send_recv, connected)
        (answered (Head.submit_task p c now func args kwargs h)
          ∙ ap or_blocked (submit_task-to_runtime p c now func args kwargs queue h e))

  -- In every reachable state of a cluster whose head has no local workers: where a client's `get`
  -- returns, with any timeout, the head is left as it was, and the value is that of the object's
  -- task at the values of its arguments, as the head's table records them.
  pub client_get-Denotes :
      (sizes : ℕ → ℕ) (s : Cluster p c) (now after : c.Time) (conn o : ℕ) (timeout : Option ℕ)
      (r : RemoteRuntime) (v : Value) (h' : Head p c)
      → Reach p c sizes s
      → get_object p c now after conn o timeout r s.head ≡ done (v, h')
      → (h' ≡ s.head) × Denotes p s.head.ownership o v
  unfolding get_object send_recv dispatch get_answer
  client_get-Denotes sizes s now after conn o timeout r v h' run e = elim (Bool-cases r.connected) [
    | inr off ↦ absurd (ground (arith, rw (get_object, send_recv, off) at e))
    | inl on ↦ elim (Option-cases (ObjectStore.get_now o s.head.object_store)) [
      | inl never ↦ absurd (ground (arith, rw (get_object, send_recv, on, dispatch, never) at e))
      | inr (x, found) ↦
          let (y, check, same) =
            >>=-eq-done (checked x) _
              (rw (get_object, send_recv, on, dispatch, found, get_answer) at e) in
          let pair : (y, s.head) ≡ (v, h') = done-injective _ _ same in
          let stored : content s.head.object_store o ≡ some v =
            sym (get_now-content o s.head.object_store)
            ∙ found
            ∙ ap some (checked-eq-done x y check ∙ ap (λ (z : Value × Head p c). z.0) pair) in
          (
            sym (ap (λ (z : Value × Head p c). z.1) pair),
            cluster-Denotes p c sizes s o v run stored,
          )
    ]
  ]
