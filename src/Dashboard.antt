-- ===== src/Dashboard.antt =====
-- python/nano_ray/dashboard.py: the class `DashboardMetrics` and `_compute_histogram`. Clock readings
-- and durations are floats of the platform: the interface Clock has what the code does with them.
pub mod Counts
pub mod Recent
pub mod Shown
use nano_ray.Prelude.{
  ℕ, suc, ◌+◌, ◌-◌, List, [], ◌∷◌, ◌++◌, Option, none, some, Bool, ◌||◌, ltb, if◌then◌else◌, length,
  drop,
}
use Prim.Native.String.{String}
use text.Mathlib.Text.{◌==◌}
use nano_ray.Prelude.Dict.{Dict, lookup, insert, erase}

pub record Clock : Type 1 where
  pub Time : Type 0
  pub Duration : Type 0
  -- `(later - earlier) * 1000`
  pub duration_ms : (later earlier : Time) → Duration
  -- `v < n`
  pub below : Duration → ℕ → Bool
  -- `round(later - earlier, 1)`, `round(ts, 3)` and `round(ms, 2)`
  pub uptime_seconds : (later earlier : Time) → Duration
  pub round_time : Time → Time
  pub round_ms : Duration → Duration

-- `xs[-n:]`, for n > 0
abbrev pub last {ℓ} : {A : Type ℓ} → ℕ → List A → List A
last n xs = drop (length xs - n) xs

pub record Histogram : Type 0 where
  pub under_1ms : ℕ
  pub from_1_to_5ms : ℕ
  pub from_5_to_20ms : ℕ
  pub from_20_to_100ms : ℕ
  pub over_100ms : ℕ

abbrev pub no_values : Histogram
no_values = record {
  under_1ms = 0;
  from_1_to_5ms = 0;
  from_5_to_20ms = 0;
  from_20_to_100ms = 0;
  over_100ms = 0;
}

module _ (c : Clock) where
  pub record DashboardMetrics : Type 0 where
    pub tasks_submitted : ℕ
    pub tasks_completed : ℕ
    pub tasks_failed : ℕ
    pub tasks_running : ℕ
    pub objects_stored : ℕ
    pub worker_count : ℕ
    pub start_time : c.Time
    pub recent_completions : List (c.Time × ℕ × c.Duration)
    pub task_submit_times : Dict c.Time

  unfoldable pub init : c.Time → DashboardMetrics
  init now = record {
    tasks_submitted = 0;
    tasks_completed = 0;
    tasks_failed = 0;
    tasks_running = 0;
    objects_stored = 0;
    worker_count = 0;
    start_time = now;
    recent_completions = [];
    task_submit_times = [];
  }

  unfoldable pub on_task_submitted : c.Time → ℕ → DashboardMetrics → DashboardMetrics
  on_task_submitted now task_id m = record m {
    tasks_submitted = m.tasks_submitted + 1;
    tasks_running = m.tasks_running + 1;
    task_submit_times = insert task_id now m.task_submit_times;
  }

  -- The list of the last 100 completions, with one more.
  unfoldable pub recent_with :
      c.Time × ℕ × c.Duration → List (c.Time × ℕ × c.Duration) → List (c.Time × ℕ × c.Duration)
  recent_with completion recent =
      let recent' = recent ++ completion ∷ [] in
      if ltb 100 (length recent') then last 100 recent' else recent'

  -- `max(0, tasks_running - 1)` is the subtraction of ℕ. The clock is read twice.
  unfoldable pub on_task_completed : c.Time → c.Time → ℕ → DashboardMetrics → DashboardMetrics
  unfolding recent_with
  on_task_completed now after task_id m =
      let m' : DashboardMetrics = record m {
        tasks_completed = m.tasks_completed + 1;
        tasks_running = m.tasks_running - 1;
        task_submit_times = erase task_id m.task_submit_times;
      } in
      elim (lookup task_id m.task_submit_times) [
        | none ↦ m'
        | some submit_time ↦ record m' {
          recent_completions =
              recent_with (after, task_id, c.duration_ms now submit_time) m.recent_completions;
        }
      ]

  unfoldable pub on_task_failed : ℕ → DashboardMetrics → DashboardMetrics
  on_task_failed task_id m = record m {
    tasks_failed = m.tasks_failed + 1;
    tasks_running = m.tasks_running - 1;
    task_submit_times = erase task_id m.task_submit_times;
  }

  unfoldable pub set_worker_count : ℕ → DashboardMetrics → DashboardMetrics
  set_worker_count count m = record m { worker_count = count }

  unfoldable pub set_objects_stored : ℕ → DashboardMetrics → DashboardMetrics
  set_objects_stored count m = record m { objects_stored = count }

  -- The entry `pending` of `to_dict`.
  unfoldable pub pending : DashboardMetrics → ℕ
  pending m = m.tasks_submitted - m.tasks_completed - m.tasks_failed - m.tasks_running

  -- The body of the loop of `_compute_histogram`.
  unfoldable pub count_value : c.Duration → Histogram → Histogram
  count_value v h =
      if c.below v 1
      then record h { under_1ms = h.under_1ms + 1 }
      else if c.below v 5
      then record h { from_1_to_5ms = h.from_1_to_5ms + 1 }
      else if c.below v 20
      then record h { from_5_to_20ms = h.from_5_to_20ms + 1 }
      else if c.below v 100
      then record h { from_20_to_100ms = h.from_20_to_100ms + 1 }
      else record h { over_100ms = h.over_100ms + 1 }

  unfoldable pub count_values : List c.Duration → Histogram → Histogram
  unfolding count_value
  count_values [] h = h
  count_values (v ∷ vs) h = count_values vs (count_value v h)

  -- The empty dict, for no values, is `none`.
  unfoldable pub compute_histogram : List c.Duration → Option Histogram
  unfolding count_values
  compute_histogram [] = none
  compute_histogram (v ∷ vs) = some (count_values (v ∷ vs) no_values)

  abbrev pub durations : List (c.Time × ℕ × c.Duration) → List c.Duration
  durations [] = []
  durations ((ts, task_id, duration) ∷ rest) = duration ∷ durations rest

  -- The entry `latency_histogram` of `to_dict`.
  unfoldable pub latency_histogram : DashboardMetrics → Option Histogram
  unfolding compute_histogram
  latency_histogram m = compute_histogram (durations (last 50 m.recent_completions))

  -- What `to_dict` gives, its nested dict `tasks` taken apart.
  pub record Snapshot : Type 0 where
    pub uptime_seconds : c.Duration
    pub submitted : ℕ
    pub completed : ℕ
    pub failed : ℕ
    pub running : ℕ
    pub pending_tasks : ℕ
    pub objects_stored : ℕ
    pub worker_count : ℕ
    pub histogram : Option Histogram
    pub recent_completions : List (c.Time × ℕ × c.Duration)

  unfoldable pub shown_completions : List (c.Time × ℕ × c.Duration) → List (c.Time × ℕ × c.Duration)
  shown_completions [] = []
  shown_completions ((ts, task_id, ms) ∷ rest) =
      (c.round_time ts, task_id, c.round_ms ms) ∷ shown_completions rest

  unfoldable pub to_dict : c.Time → DashboardMetrics → Snapshot
  unfolding pending latency_histogram shown_completions
  to_dict now m = record {
    uptime_seconds = c.uptime_seconds now m.start_time;
    submitted = m.tasks_submitted;
    completed = m.tasks_completed;
    failed = m.tasks_failed;
    running = m.tasks_running;
    pending_tasks = pending m;
    objects_stored = m.objects_stored;
    worker_count = m.worker_count;
    histogram = latency_histogram m;
    recent_completions = shown_completions (last 20 m.recent_completions);
  }

  -- What the HTTP server answers: the page, the metrics (the empty dict where none are set), or 404.
  pub data Reply : Type 0 where
    page : Reply
    metrics : Option Snapshot → Reply
    not_found : Reply

  abbrev pub snapshot_of : c.Time → Option DashboardMetrics → Option Snapshot
  snapshot_of now none = none
  snapshot_of now (some m) = some (to_dict now m)

  unfoldable pub do_get : c.Time → String → Option DashboardMetrics → Reply
  unfolding to_dict
  do_get now path m =
      if path == "/api/metrics"
      then metrics (snapshot_of now m)
      else if path == "/" || path == "/dashboard"
      then page
      else not_found
