-- ===== src/Lib.antt =====
-- nano-ray, a small distributed task runtime in Python (python/nano_ray): users submit functions as
-- tasks and get references to their results; references may be arguments of further tasks.
--
-- The parts and how they meet. `submit_task` of the local runtime (python/nano_ray/driver.py) takes
-- the references out of a task's arguments (python/nano_ray/dag.py), records the task in the
-- ownership table (python/nano_ray/_fallback/ownership.py) and gives it to the scheduler
-- (python/nano_ray/_fallback/scheduler.py), which holds it back until its dependencies are
-- announced. A flush resolves the references of every ready task from the object store
-- (python/nano_ray/_fallback/object_store.py) and sends the task to the worker processes; a
-- collector thread stores what they report and announces it. A lost object is made again from the
-- lineage in the table.
--
-- Which file models what:
-- - Values: Python values as far as the runtime looks into them, tasks (`TaskSpec`).
-- - Scheduler: `Scheduler.submit`, `on_object_ready`, `pop_ready_task`, `has_ready_tasks` on the
--   ready queue, `_pending_tasks` and `_object_to_waiting`. Below it: Run (histories of calls),
--   Resolve and Index (the reverse index), Conserve (each task once), Progress (when a task becomes
--   ready), Specs (what holds of all tasks held).
-- - Dag: `extract_dependencies`, `_collect_refs`, `resolve_args`, `_resolve`. Refs and Resolve hold
--   the lemmas.
-- - ObjectStore: every method of the class; ObjectStore.Waiting: threads in `put` and `get_or_wait`
--   as a step relation, a step being the code between taking and releasing the lock, or setting an
--   event, waking, timing out, and the unlocked read at the end.
-- - Ownership: every method of `OwnershipTable`; Calls, Lookup, RefCount, Links hold the lemmas.
-- - Worker: `_worker_loop`, and the interface Platform of what the runtime calls and does not
--   implement: cloudpickle, the users' functions, the process id and a function's name.
-- - Driver: the class `Runtime`. Below it: System (user, workers and collector in any order), Flush,
--   Covered, Scheduling and Safety (the scheduler against the store), Meaning, Soundness,
--   Preserved, Entry, Run and Results (the values that are stored), Submitted (what the object of a
--   submission means).
--   Recovery is `get_object` and `reconstruct_object`; what the other threads do while the caller
--   waits is their parameter `wait`, with the contract Missing.IsWait, which Turns and Arrival fill
--   with one worker that takes turns with the collector. Recoverable, Missing, Rebuild, Get and Loss
--   hold what a lost object needs and what becomes of it. Flying, Tracked and Placed follow the
--   objects that are yet to come; Works, Quiet and Drain follow workers and collector until nothing is
--   left in the queues.
-- - Answers: what a call comes to, with the errors it raises; a call that waits without end is
--   `blocked`.
-- - Api: `init`, `shutdown`, `remote`, `get`, `reconstruct`, `evict` and `wait` of
--   python/nano_ray/api.py in local mode. A call of `wait` is given what `contains` says at each of its
--   passes. Get and Wait hold what these calls give. ClusterMode: the same functions where the global is
--   a client of a cluster.
-- - Actor: python/nano_ray/actor.py; Meaning and Calls compare the objects that users get for the calls
--   of an actor, in a local runtime, with calls on one instance; Failures follows a method
--   that raises.
-- - Head: `HeadService` of python/nano_ray/head.py, its dispatcher with every command. Agreement and
--   Polling compare it with the local runtime. Connection is its start and a connection from the first
--   message to the last.
-- - Client: the class `RemoteRuntime` of python/nano_ray/remote_runtime.py over the head's dispatcher;
--   Agreement compares it with the local runtime and says what a `get` gives.
-- - Cluster: the worker node of python/nano_ray/node.py. Below it: System (clients, nodes and their
--   processes in any order), Answers, Polls and Values (the values that a cluster stores), Growth and
--   Stable (what stays as the cluster goes on).
-- - Transport: python/nano_ray/transport.py; the receiving side of a connection is a list of pieces.
-- - Dashboard: `DashboardMetrics` and `_compute_histogram` of python/nano_ray/dashboard.py, over the
--   interface Clock for times, durations and their rounding; `to_dict` and `do_GET`, with the page's
--   text left out. Counts (the counters), Recent (the completions that are kept) and Shown hold the
--   lemmas.
-- - CommandLine: `main` of python/nano_ray/start.py, from what argparse gives to the service started.
-- - Examples: the diamond of examples/03_task_chain.py (Chain), the loss of its objects in
--   examples/06_lineage_recovery.py (Lineage), examples/04_word_count.py (WordCount) and the counter
--   actor of examples/05_parameter_server.py (Counter).
-- - Prelude: tests and lemmas on lists, dicts and options.
-- - Tests: concrete runs, and the theorems at them.
--
-- Conventions. Ids are natural numbers, as Python's integers do not overflow. A dict is an
-- association list with one entry per key, a set a list without repetition. A method that holds a
-- lock is one function. Reference counts are integers, since they may fall below 0. A wait for an
-- object that is not in the store gives `none`. Users' functions are deterministic, and the arguments
-- of tasks can be pickled; both are stated in Platform. There a function returns or raises an
-- `Exception`: one that never comes back, or that ends its worker process (`SystemExit`), is not
-- represented, and a pickle of a result that a worker has made can be loaded, so that the collector does
-- not fail on it. The head's `get_object` gives the value for its pickle. A pass of `wait` sees one state
-- of the store. The steps of Driver.System are open to a runtime that is not started too; those of
-- Driver.Works ask for a running collector and a worker.
--
-- Bounds. The loop of `_flush_ready_tasks` runs on fuel, the length of the ready queue: each round
-- takes one task off, and nothing puts one back. The loop of `_recv_exact` runs on the number of bytes
-- asked for, as each round receives one at least or ends. `reconstruct_object` calls itself on missing
-- dependencies; its `limit` is the number of nested calls that Python allows, and the call fails with
-- `recursion_error` where that is used up. The turns of `wait_by_turns` run on fuel, two turns for each
-- task that is queued and one for each report. All other loops are structural.
--
-- Not modelled: the Rust backend (rust/nano_ray_core), which is another implementation of the same
-- three classes; the HTML page and the start of the HTTP server of python/nano_ray/dashboard.py;
-- argparse; the start of processes, sockets and threads; that one variable of python/nano_ray/api.py
-- holds either kind of runtime, and its decorator. The string methods of the word count are parameters.
pub mod Prelude
pub mod Values
pub mod Answers
pub mod Scheduler
pub mod Dag
pub mod ObjectStore
pub mod Ownership
pub mod Worker
pub mod Driver
pub mod Dashboard
pub mod Head
pub mod Transport
pub mod Api
pub mod Cluster
pub mod Actor
pub mod Tests
pub mod Client
pub mod Examples
pub mod CommandLine
