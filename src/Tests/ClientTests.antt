-- ===== src/Tests/ClientTests.antt =====
-- A client of a cluster (python/nano_ray/remote_runtime.py): a submission, and a `get` when the task is
-- done.
use nano_ray.Prelude.{◌≡◌, refl, ◌∙◌, ap, [], ◌∷◌, none, some, true, is_some}
use nano_ray.Answers.{done, or_blocked}
use nano_ray.Values.{Value, obj, end, user}
use nano_ray.ObjectStore.Laws.{contains-content, get_now-content}
use nano_ray.ObjectStore
use nano_ray.Driver
use nano_ray.Head.{dispatch, disconnect}
use nano_ray.Cluster.System.{Cluster, leaves}
use nano_ray.Cluster.Stable.{now_here, after_step, Later-kept, cluster_stored_again}
use nano_ray.Api.ClusterMode.{get_list}
use nano_ray.Api.ClusterMode.Values.{Comes, cluster_get_list-total}
use nano_ray.Head.Agreement.{as_runtime}
use nano_ray.Client.{RemoteRuntime, init, send_recv, get_answer, submit_task, get_object}
use nano_ray.Client.Agreement.{as_local, submit_task-local}
use nano_ray.Tests.Data.{toy, ticks, one_arg}
use nano_ray.Tests.HeadTests.{with_local}
use nano_ray.Tests.ClusterTests.{sizes, reported, reported-Reach, run_values}

abbrev client : RemoteRuntime
client = record (init "localhost" 6379) { connected = true }

submit_task-local_example :
    as_local toy ticks
      (submit_task toy ticks 3 3 0 (user 1) (one_arg (obj 5)) end client with_local)
    ≡ or_blocked
        (Driver.submit_task toy (user 1) (one_arg (obj 5)) end (as_runtime toy ticks [] with_local))
submit_task-local_example =
    submit_task-local toy ticks 3 3 0 (user 1) (one_arg (obj 5)) end [] client with_local refl refl

got_six : get_object toy ticks 3 3 0 1 (some 10) client reported.head ≡ done (obj 6, reported.head)
unfolding get_object send_recv dispatch get_answer
got_six =
    rw (get_object, send_recv, dispatch, get_now-content 1 reported.head.object_store, run_values.4)
      refl

there : ObjectStore.contains 1 reported.head.object_store ≡ true
there = contains-content 1 reported.head.object_store ∙ ap (is_some {A = Value}) run_values.4

cluster_get_list-total_example :
    Comes toy ticks sizes
      (λ o s. s)
      3
      3
      0
      (get_list toy ticks (λ o s. s) 3 3 0 (1 ∷ 1 ∷ []) none (some client) reported)
      (1 ∷ 1 ∷ [])
      reported
cluster_get_list-total_example =
    cluster_get_list-total toy ticks sizes (λ o s. s) 3 3 0 (1 ∷ 1 ∷ []) none client reported
      (λ o s. now_here) refl
      (
        λ t later. Later-kept toy ticks sizes reported t 1 reported-Reach later there,
        (λ t later. Later-kept toy ticks sizes reported t 1 reported-Reach later there, tt),
      )
      reported-Reach

abbrev gone : Cluster toy ticks
gone = record reported { head = disconnect toy ticks 0 reported.head }

cluster_stored_again_example : obj 6 ≡ obj 6
unfolding disconnect
cluster_stored_again_example =
    cluster_stored_again toy ticks sizes reported gone 1 (obj 6) (obj 6) reported-Reach
      (after_step now_here (leaves 0 refl)) run_values.4 run_values.4
