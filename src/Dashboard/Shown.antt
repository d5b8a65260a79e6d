-- ===== src/Dashboard/Shown.antt =====
-- What the dashboard of python/nano_ray/dashboard.py gets to show after a history of events.
use nano_ray.Prelude.{
  ℕ, ◌+◌, ◌≡◌, refl, ap, subst, List, [], ◌∷◌, Option, none, some, Bool, not, ◌&&◌, if◌then◌else◌,
  map, arith,
}
use nano_ray.Dashboard.{
  Clock, Histogram, init, count_value, count_values, no_values, compute_histogram, last,
  shown_completions, durations, latency_histogram, to_dict,
}
use nano_ray.Dashboard.Counts.{Event, on_events, pending_zero}
use nano_ray.Dashboard.Recent.{Newest, last-Newest, Completion, completions, on_events-Newest}

module _ (c : Clock) where
  -- How many durations pass a test.
  unfoldable pub how_many : (c.Duration → Bool) → List c.Duration → ℕ
  how_many f [] = 0
  how_many f (v ∷ vs) = (if f v then 1 else 0) + how_many f vs

  abbrev pub between : ℕ → ℕ → c.Duration → Bool
  between low high v = not (c.below v low) && c.below v high

  -- Each bucket has the number of durations that are in its range and in none below it.
  pub record IsHistogram (vs : List c.Duration) (h : Histogram) : Type 0 where
    pub under_1 : h.under_1ms ≡ how_many (λ v. c.below v 1) vs
    pub to_5 : h.from_1_to_5ms ≡ how_many (between 1 5) vs
    pub to_20 : h.from_5_to_20ms ≡ how_many (λ v. not (c.below v 1) && between 5 20 v) vs
    pub to_100 :
        h.from_20_to_100ms
        ≡ how_many (λ v. not (c.below v 1) && (not (c.below v 5) && between 20 100 v)) vs
    pub over :
        h.over_100ms
        ≡ how_many
            (λ v.
              not (c.below v 1)
              && (not (c.below v 5) && (not (c.below v 20) && not (c.below v 100))))
            vs

  -- Where `count_values` starts from `h`.
  record IsAdded (vs : List c.Duration) (h k : Histogram) : Type 0 where
    pub under_1 : k.under_1ms ≡ h.under_1ms + how_many (λ v. c.below v 1) vs
    pub to_5 : k.from_1_to_5ms ≡ h.from_1_to_5ms + how_many (between 1 5) vs
    pub to_20 :
        k.from_5_to_20ms ≡ h.from_5_to_20ms + how_many (λ v. not (c.below v 1) && between 5 20 v) vs
    pub to_100 :
        k.from_20_to_100ms
        ≡ h.from_20_to_100ms
          + how_many (λ v. not (c.below v 1) && (not (c.below v 5) && between 20 100 v)) vs
    pub over :
        k.over_100ms
        ≡ h.over_100ms
          + how_many
              (λ v.
                not (c.below v 1)
                && (not (c.below v 5) && (not (c.below v 20) && not (c.below v 100))))
              vs

  count_values-IsAdded : (vs : List c.Duration) (h : Histogram) → IsAdded vs h (count_values c vs h)
  unfolding count_values count_value how_many
  count_values-IsAdded [] h = record {
    under_1 = omega arith;
    to_5 = omega arith;
    to_20 = omega arith;
    to_100 = omega arith;
    over = omega arith;
  }
  count_values-IsAdded (v ∷ vs) h =
      let rest = count_values-IsAdded vs (count_value c v h) in
      record {
        under_1 = ground (arith, rest.under_1);
        to_5 = ground (arith, rest.to_5);
        to_20 = ground (arith, rest.to_20);
        to_100 = ground (arith, rest.to_100);
        over = ground (arith, rest.over);
      }

  -- The empty dict stands for no durations.
  abbrev pub Counts : List c.Duration → Option Histogram → Type 0
  Counts vs none = vs ≡ []
  Counts vs (some h) = IsHistogram vs h

  compute_histogram-Counts : (vs : List c.Duration) → Counts vs (compute_histogram c vs)
  unfolding compute_histogram
  compute_histogram-Counts [] = refl
  compute_histogram-Counts (v ∷ vs) =
      let added = count_values-IsAdded (v ∷ vs) no_values in
      record {
        under_1 = omega (arith, added.under_1);
        to_5 = omega (arith, added.to_5);
        to_20 = omega (arith, added.to_20);
        to_100 = omega (arith, added.to_100);
        over = omega (arith, added.over);
      }

  -- A completion as it is shown.
  abbrev pub rounded : Completion c → Completion c
  rounded (ts, task_id, ms) = (c.round_time ts, task_id, c.round_ms ms)

  shown_completions-map : (xs : List (Completion c)) → shown_completions c xs ≡ map rounded xs
  unfolding shown_completions
  shown_completions-map [] = refl
  shown_completions-map ((ts, task_id, ms) ∷ xs) =
      ap (λ l. (c.round_time ts, task_id, c.round_ms ms) ∷ l) (shown_completions-map xs)

  abbrev pub duration_of : Completion c → c.Duration
  duration_of (ts, task_id, ms) = ms

  durations-map : (xs : List (Completion c)) → durations c xs ≡ map duration_of xs
  durations-map [] = refl
  durations-map ((ts, task_id, ms) ∷ xs) = ap (λ l. ms ∷ l) (durations-map xs)

  -- After any history of events the metrics keep the last 100 of the completions that it recorded.
  -- What the dashboard gets to show has no pending task (a task counts as running from its
  -- submission on), the last 20 of those kept, rounded, in their order, and a histogram whose
  -- buckets count, of the last 50 of those kept, the durations in their range.
  pub to_dict-shown :
      (now later : c.Time) (es : List (Event c))
      → Newest 100 (completions c (init c now) es) (on_events c (init c now) es).recent_completions
        × ((to_dict c later (on_events c (init c now) es)).pending_tasks ≡ 0)
        × ((shown : List (Completion c)) × Newest 20
              (on_events c (init c now) es).recent_completions
              shown
            × ((to_dict c later (on_events c (init c now) es)).recent_completions
                ≡ map rounded shown))
        × ((counted : List (Completion c)) × Newest 50
              (on_events c (init c now) es).recent_completions
              counted
            × Counts
                (map duration_of counted)
                (to_dict c later (on_events c (init c now) es)).histogram)
  unfolding to_dict latency_histogram init
  to_dict-shown now later es =
      let kept = (on_events c (init c now) es).recent_completions in
      (
        on_events-Newest c (init c now) es [] ([], refl, refl),
        (pending_zero c now es).1,
        (last 20 kept, last-Newest 20 kept, shown_completions-map (last 20 kept)),
        (
          last 50 kept,
          last-Newest 50 kept,
          subst (λ vs. Counts vs (compute_histogram c (durations c (last 50 kept))))
              (durations-map (last 50 kept))
              (compute_histogram-Counts (durations c (last 50 kept))),
        ),
      )
