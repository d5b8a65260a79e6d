-- ===== src/Tests/HeadTests.antt =====
-- python/nano_ray/head.py with one local worker, and with none.
use nano_ray.Prelude.{ℕ, ◌+◌, ◌-◌, ◌≡◌, refl, List, [], ◌∷◌, none, some, length}
use nano_ray.Prelude.Maybe.{map_some}
use nano_ray.Values.{obj}
use nano_ray.Worker.{Report, returned}
use nano_ray.Driver
use nano_ray.Driver.{Runtime}
use nano_ray.Scheduler
use nano_ray.Head.{
  Head, init, handle_task_result, Request, register_worker, poll_task, ok, no_task, dispatch, poll,
  remove, disconnect,
}
use nano_ray.Head.Connection
use nano_ray.Head.Connection.{handle_connection}
use nano_ray.Head.Connection.Registered.{count, registrations, handle_connection-registrations}
use nano_ray.Head.Agreement.{as_runtime, to_runtime, handle_task_result-to_runtime}
use nano_ray.Head.Polling.{polls, sent, polls-flush_ready_tasks}
use nano_ray.Tests.Data.{toy, ticks, value, spec_of}

abbrev pub with_local : Head toy ticks
with_local = record (init toy ticks 1) { local_task_queue = some [] }

abbrev report : Report toy
report = record { task_id = 0; object_id = 1; result = returned (value (obj 6)) }

-- No local workers, and two tasks that are ready.
abbrev to_poll : Head toy ticks
to_poll = record (init toy ticks 0) {
  scheduler = record {
    ready_queue = spec_of 0 (obj 5) ∷ spec_of 2 (obj 6) ∷ [];
    pending_tasks = [];
    object_to_waiting = [];
  };
}

handle_task_result-to_runtime_example :
    map_some (to_runtime toy ticks) (handle_task_result toy ticks 4 4 report with_local)
    ≡ Driver.collect toy report (as_runtime toy ticks [] with_local)
handle_task_result-to_runtime_example =
    handle_task_result-to_runtime toy ticks 4 4 report [] with_local refl

polls-flush_ready_tasks_example :
    map_some (sent toy ticks []) (polls toy ticks (length to_poll.scheduler.ready_queue) to_poll)
    ≡ Driver.flush_ready_tasks toy (as_runtime toy ticks [] to_poll)
polls-flush_ready_tasks_example = polls-flush_ready_tasks toy ticks [] to_poll

-- A worker node that registers, polls once and goes.
abbrev started : Head toy ticks
started = Connection.start toy ticks none 0 (init toy ticks 0)

abbrev talk : List (ℕ × ℕ × Request toy ticks)
talk = (1, 1, register_worker) ∷ (2, 2, poll_task) ∷ []

talked :
    handle_connection toy ticks (λ h. h) talk 8 started
    ≡ some (ok ∷ no_task ∷ [], record started { worker_conns = [] })
unfolding handle_connection Connection.serve Connection.start init dispatch poll remove disconnect
    Scheduler.init Scheduler.pop_ready_task
talked = refl

handle_connection-registrations_example :
    count 8 [] ≡ count 8 started.worker_conns + registrations toy ticks (ok ∷ no_task ∷ []) - 1
handle_connection-registrations_example =
    handle_connection-registrations toy ticks (λ h. h) talk 8 started
      (record started { worker_conns = [] }) (ok ∷ no_task ∷ []) (λ x. refl) talked
