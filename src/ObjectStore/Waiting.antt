-- ===== src/ObjectStore/Waiting.antt =====
-- Threads that call `put` and `get_or_wait` of python/nano_ray/_fallback/object_store.py at the
-- same time. A step is what one thread does under the lock, or one action outside of it: setting
-- an event, waking from it, and the last, unlocked read.
mod Invariant
mod Moves
mod Kept
pub mod Safety
use nano_ray.Prelude.{ℕ, ◌≡◌, Option, none, some, Bool, true, ◌⊎◌, inl, inr, ◌==◌, if◌then◌else◌}
use nano_ray.Prelude.Dict.{lookup}
use nano_ray.Values.{Value}
use nano_ray.ObjectStore.{ObjectStore, init, put_locked, signal, wait_locked, is_set, delete}

-- Where a thread stands. `signalling` is `put` behind its lock, and `waiting` is `get_or_wait` in
-- `event.wait`; `woken` has its event and is about to read `self._store[object_id]`.
pub data Thread : Type 0 where
  idle : Thread
  signalling : (event : Option ℕ) → Thread
  waiting : (object_id event : ℕ) → Thread
  woken : (object_id : ℕ) → Thread
  returned : (value : Value) → Thread
  timeout_error : (object_id : ℕ) → Thread
  key_error : (object_id : ℕ) → Thread

pub record System : Type 0 where
  pub objects : ObjectStore
  pub threads : ℕ → Thread

abbrev pub update : (ℕ → Thread) → ℕ → Thread → ℕ → Thread
update threads i thread j = if j == i then thread else threads j

abbrev pub after_lock : ℕ → Value ⊎ ℕ → Thread
after_lock object_id (inl value) = returned value
after_lock object_id (inr event) = waiting object_id event

abbrev pub after_read : ℕ → Option Value → Thread
after_read object_id none = key_error object_id
after_read object_id (some value) = returned value

-- What thread `i` does in one step.
pub data Step (s t : System) : Type 0 where
  put_begins :
      (i object_id : ℕ) (value : Value)
      → s.threads i ≡ idle
      → t ≡ record {
        objects = (put_locked object_id value s.objects).1;
        threads = update s.threads i (signalling (put_locked object_id value s.objects).0);
      }
      → Step s t
  put_ends :
      (i : ℕ) (event : Option ℕ)
      → s.threads i ≡ signalling event
      → t ≡ record { objects = signal event s.objects; threads = update s.threads i idle }
      → Step s t
  wait_begins :
      (i object_id : ℕ)
      → s.threads i ≡ idle
      → t ≡ record {
        objects = (wait_locked object_id s.objects).1;
        threads = update s.threads i (after_lock object_id (wait_locked object_id s.objects).0);
      }
      → Step s t
  wakes :
      (i object_id event : ℕ)
      → s.threads i ≡ waiting object_id event
      → is_set event s.objects ≡ true
      → t ≡ record s { threads = update s.threads i (woken object_id) }
      → Step s t
  times_out :
      (i object_id event : ℕ)
      → s.threads i ≡ waiting object_id event
      → t ≡ record s { threads = update s.threads i (timeout_error object_id) }
      → Step s t
  reads :
      (i object_id : ℕ)
      → s.threads i ≡ woken object_id
      → t ≡ record s {
        threads = update s.threads i (after_read object_id (lookup object_id s.objects.store));
      }
      → Step s t
  goes_on :
      (i : ℕ) (value : Value)
      → s.threads i ≡ returned value
      → t ≡ record s { threads = update s.threads i idle }
      → Step s t

abbrev pub start : System
start = record { objects = init; threads = λ _. idle }

-- The states that any number of threads can bring about.
pub data Reach : System → Type 0 where
  here : Reach start
  next : {s t : System} → Reach s → Step s t → Reach t
