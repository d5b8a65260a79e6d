-- ===== src/Driver/Turns.antt =====
-- One worker process and the collector thread of python/nano_ray/driver.py that take turns: the
-- collector first, then the worker with the first task of the queue. A thread that waits for an
-- object can rely on them (see Driver.Missing).
use nano_ray.Prelude.{
  ℕ, zero, suc, ◌+◌, ◌*◌, ◌≡◌, refl, sym, subst, List, [], ◌∷◌, ◌++◌, Option, none, some, true,
  false, arith, length, inl, inr, Bool-cases,
}
use nano_ray.Prelude.Maybe.{◌>>=◌, >>=-eq-some}
use mathlib.Core.Option.{some-injective}
use nano_ray.ObjectStore
use nano_ray.Worker.{Platform, Message, Report, work}
use nano_ray.Driver.{Runtime, collect}
use nano_ray.Driver.System.{Step, finishes, collects, Steps, here, next, Steps-trans}
use nano_ray.Driver.Recovery.{Wait}
use nano_ray.Driver.Missing.{Has}

module _ (p : Platform) where
  abbrev pub after_work : List (Option (Message p)) → Message p → Runtime p → Runtime p
  after_work rest m r = record r {
    task_queue = rest;
    result_queue = r.result_queue ++ work p m ∷ [];
  }

  abbrev pub first_task : List (Option (Message p)) → Runtime p → Option (Runtime p)
  first_task (some m ∷ rest) r = some (after_work rest m r)
  first_task _ r = none

  abbrev pub first_report : List (Report p) → Runtime p → Option (Runtime p)
  first_report (report ∷ rest) r = collect p report (record r { result_queue = rest })
  first_report [] r = first_task r.task_queue r

  unfoldable pub one_turn : Runtime p → Option (Runtime p)
  one_turn r = first_report r.result_queue r

  -- At most `fuel` turns, until the object is there.
  unfoldable pub take_turns : ℕ → ℕ → Runtime p → Option (Runtime p)
  unfolding one_turn
  take_turns zero o r = elim (ObjectStore.contains o r.object_store) [
    | true ↦ some r
    | false ↦ none
  ]
  take_turns (suc fuel) o r = elim (ObjectStore.contains o r.object_store) [
    | true ↦ some r
    | false ↦ one_turn r >>= take_turns fuel o
  ]

  -- Each task that is queued takes two turns, each report one.
  unfoldable pub wait_by_turns : Wait p
  unfolding take_turns
  wait_by_turns timeout o r = take_turns (2 * length r.task_queue + length r.result_queue) o r

  first_task-Step :
      (queue : List (Option (Message p))) (r r' : Runtime p)
      → r.task_queue ≡ queue
      → first_task queue r ≡ some r'
      → Step p r r'
  first_task-Step [] r r' q e = absurd (ground arith)
  first_task-Step (none ∷ rest) r r' q e = absurd (ground arith)
  first_task-Step (some m ∷ rest) r r' q e = finishes [] rest m q (sym (some-injective _ _ e))

  first_report-Step :
      (queue : List (Report p)) (r r' : Runtime p)
      → r.result_queue ≡ queue
      → first_report queue r ≡ some r'
      → Step p r r'
  first_report-Step [] r r' q e = first_task-Step r.task_queue r r' refl e
  first_report-Step (report ∷ rest) r r' q e = collects report rest q e

  pub one_turn-Step : (r r' : Runtime p) → one_turn r ≡ some r' → Step p r r'
  unfolding one_turn
  one_turn-Step r r' e = first_report-Step r.result_queue r r' refl e

  pub take_turns-Steps :
      (fuel o : ℕ) (r r' : Runtime p) → take_turns fuel o r ≡ some r' → Steps p r r' × Has p o r'
  unfolding take_turns
  take_turns-Steps zero o r r' e = elim (Bool-cases (ObjectStore.contains o r.object_store)) [
    | inl there ↦
        subst (λ x. Steps p r x × Has p o x) (some-injective _ _ (rw (take_turns, there) at e))
          (here, there)
    | inr missing ↦ absurd (ground (arith, rw (take_turns, missing) at e))
  ]
  take_turns-Steps (suc fuel) o r r' e = elim (Bool-cases (ObjectStore.contains o r.object_store)) [
    | inl there ↦
        subst (λ x. Steps p r x × Has p o x) (some-injective _ _ (rw (take_turns, there) at e))
          (here, there)
    | inr missing ↦
        let (r₁, turn, rest) = >>=-eq-some (one_turn r) _ (rw (take_turns, missing) at e) in
        let (run, has) = take_turns-Steps fuel o r₁ r' rest in
        (Steps-trans p (next here (one_turn-Step r r₁ turn)) run, has)
  ]
