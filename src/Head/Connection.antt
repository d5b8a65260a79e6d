-- ===== src/Head/Connection.antt =====
-- The work of `HeadService` (python/nano_ray/head.py) around its dispatcher: its start, and a
-- connection from the first message to the last.
pub mod Registered
use nano_ray.Prelude.{
  ℕ, ◌+◌, List, [], ◌∷◌, Option, none, some, Bool, true, false, ltb, if◌then◌else◌,
}
use nano_ray.Prelude.Maybe.{◌>>=◌}
use nano_ray.Worker.{Platform, Report}
use nano_ray.Dashboard
use nano_ray.Dashboard.{Clock}
use nano_ray.Head.{Head, Request, Response, handle_task_result, dispatch, disconnect}

module _ (p : Platform) (c : Clock) where
  -- `_start_local_workers`; the processes are started elsewhere.
  unfoldable pub start_local_workers : Head p c → Head p c
  start_local_workers h = record h {
    local_task_queue = some [];
    local_workers = h.local_workers + h.num_local_workers;
  }

  -- The metrics of `start`, with the port of the dashboard.
  abbrev pub with_dashboard : Option ℕ → c.Time → Head p c → Head p c
  with_dashboard none now h = h
  with_dashboard (some port) now h = record h {
    metrics = some (Dashboard.set_worker_count c h.num_local_workers (Dashboard.init c now));
  }

  unfoldable pub start : Option ℕ → c.Time → Head p c → Head p c
  unfolding start_local_workers
  start dashboard_port now h =
      if h.running
      then h
      else let h' = with_dashboard dashboard_port now (record h { running = true }) in
        if ltb 0 h.num_local_workers then start_local_workers h' else h'

  -- One round of `_collect_local_results`, with what the result queue gives, if anything.
  unfoldable pub collect_local_result :
      c.Time → c.Time → Option (Report p) → Head p c → Option (Head p c)
  collect_local_result now after none h = some h
  collect_local_result now after (some report) h = handle_task_result p c now after report h

  -- `others` is what the head's other threads do while this one waits for a message.
  module _ (others : Head p c → Head p c) where
    -- The loop of `_handle_connection`, over the messages that arrive until the connection ends, each
    -- with the clock before and after: the answers, and the head.
    unfoldable pub serve :
        List (c.Time × c.Time × Request p c)
        → ℕ
        → Head p c
        → Option (List (Response p c) × Head p c)
    serve [] conn h = some ([], if h.running then others h else h)
    serve ((now, after, request) ∷ rest) conn h = elim h.running [
      | false ↦ some ([], h)
      | true ↦ dispatch p c now after request conn (others h) >>= λ (response, h₁).
          serve rest conn h₁ >>= λ (responses, h₂). some (response ∷ responses, h₂)
    ]

    unfoldable pub handle_connection :
        List (c.Time × c.Time × Request p c)
        → ℕ
        → Head p c
        → Option (List (Response p c) × Head p c)
    unfolding serve disconnect
    handle_connection requests conn h =
        serve requests conn h >>= λ (responses, h'). some (responses, disconnect p c conn h')
