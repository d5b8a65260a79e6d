-- ===== src/ObjectStore/Waiting/Kept.antt =====
-- The steps of the threads of python/nano_ray/_fallback/object_store.py against the invariant.
use nano_ray.Prelude.{
  ℕ, sym, subst, ◌≢◌, ◌≡◌, refl, Option, none, some, true, inl, inr, ◌==◌, arith, elem,
  Option-cases, Bool-cases,
}
use nano_ray.Prelude.Dict.{lookup, lookup-insert, contains as has_key}
use nano_ray.Values.{Value}
use nano_ray.ObjectStore.{ObjectStore, init, put_locked, signal, wait_locked, is_set, contains}
use nano_ray.ObjectStore.Waiting.{
  Thread, idle, signalling, woken, timeout_error, System, update, after_lock, after_read, Step,
  put_begins, put_ends, wait_begins, wakes, times_out, reads, goes_on, start, Reach, here, next,
}
use nano_ray.ObjectStore.Waiting.Invariant.{EventsOk, ThreadOk, Announced, Inv}
use nano_ray.ObjectStore.Waiting.Moves.{
  put_locked-EventsOk, signal-EventsOk, wait_locked-EventsOk, Grows, put_locked-Grows, signal-Grows,
  wait_locked-Grows, update-ThreadOk, update-Announced, locked_thread, waiting_thread,
  wait_locked_sets, wait_locked_same,
}

module _ (s : System) (inv : Inv s) where
  open inv use {events_ok, thread_ok, announced}
  open s use {objects, threads}

  -- A step of a thread that has no event to set, over a store that keeps its events and objects.
  quiet-Inv :
      (objects' : ObjectStore) (i : ℕ) (thread : Thread)
      → EventsOk objects'
      → Grows objects objects'
      → ((d : ℕ) → threads i ≢ signalling (some d))
      → ThreadOk objects' thread
      → ((e : ℕ) → is_set e objects ≡ true → is_set e objects' ≡ true)
      → ((o e : ℕ)
          → lookup o objects'.events ≡ some e
          → contains o objects' ≡ true
          → (lookup o objects.events ≡ some e) × (contains o objects ≡ true))
      → Inv (record { objects = objects'; threads = update threads i thread })
  quiet-Inv objects' i thread ok grows other mine set_kept same = record {
    events_ok = ok;
    thread_ok = update-ThreadOk objects objects' threads i thread grows thread_ok mine;
    announced = λ o e q h.
        let (q', h') = same o e q h in
        update-Announced s (record { objects = objects'; threads = update threads i thread }) i o e
          thread refl other (set_kept e) (announced o e q' h');
  }

  -- The same, over a store that stays.
  still-Inv :
      (i : ℕ) (thread : Thread)
      → ((d : ℕ) → threads i ≢ signalling (some d))
      → ThreadOk objects thread
      → Inv (record s { threads = update threads i thread })
  still-Inv i thread other mine =
      quiet-Inv objects i thread events_ok
        (record { keeps_events = λ o e q. q; keeps_objects = λ o h. h }) other mine (λ e h. h)
        (λ o e q h. (q, h))

  put_begins-Announced :
      (i o : ℕ) (v : Value)
      → threads i ≡ idle
      → (p e : ℕ) → lookup p objects.events ≡ some e
      → contains p (put_locked o v objects).1 ≡ true
      → Announced
          (record {
            objects = (put_locked o v objects).1;
            threads = update threads i (signalling (put_locked o v objects).0);
          })
          p
          e
  unfolding put_locked contains has_key is_set
  put_begins-Announced i o v free p e q h = elim (Bool-cases (p == o)) [
    | inl same ↦ inr (i, ground arith)
    | inr other ↦
        update-Announced s
          (record {
            objects = (put_locked o v objects).1;
            threads = update threads i (signalling (put_locked o v objects).0);
          })
          i p e (signalling (put_locked o v objects).0) refl (λ d. ground arith) (λ z. z)
          (announced p e q (ground (arith, lookup-insert o p v objects.store)))
  ]

  put_begins-Inv :
      (i o : ℕ) (v : Value)
      → threads i ≡ idle
      → Inv (record {
        objects = (put_locked o v objects).1;
        threads = update threads i (signalling (put_locked o v objects).0);
      })
  unfolding put_locked contains has_key is_set
  put_begins-Inv i o v free = record {
    events_ok = put_locked-EventsOk o v objects events_ok;
    thread_ok =
        update-ThreadOk objects (put_locked o v objects).1 threads i
          (signalling (put_locked o v objects).0) (put_locked-Grows o v objects) thread_ok
          (locked_thread o v objects);
    announced = λ p e q h. put_begins-Announced i o v free p e q h;
  }

  signalled-Announced :
      (i d p e : ℕ)
      → threads i ≡ signalling (some d)
      → Announced s p e
      → Announced
          (record { objects = signal (some d) objects; threads = update threads i idle })
          p
          e
  unfolding is_set signal elem
  signalled-Announced i d p e mine (inl h) = inl (ground arith)
  signalled-Announced i d p e mine (inr (j, h)) = elim (Bool-cases (e == d)) [
    | inl same ↦ inl (ground arith)
    | inr other ↦ inr (j, ground arith)
  ]

  put_ends-Inv :
      (i : ℕ) (event : Option ℕ)
      → threads i ≡ signalling event
      → Inv (record { objects = signal event objects; threads = update threads i idle })
  unfolding signal contains
  put_ends-Inv i none mine = still-Inv i idle (λ d. ground arith) tt
  put_ends-Inv i (some d) mine =
      let (o, own_event, there) = subst (ThreadOk objects) mine (thread_ok i) in
      record {
        events_ok = signal-EventsOk o d objects own_event there events_ok;
        thread_ok =
            update-ThreadOk objects (signal (some d) objects) threads i idle
              (signal-Grows (some d) objects) thread_ok tt;
        announced = λ p e q h. signalled-Announced i d p e mine (announced p e q h);
      }

  wait_begins-Inv :
      (i o : ℕ)
      → threads i ≡ idle
      → Inv (record {
        objects = (wait_locked o objects).1;
        threads = update threads i (after_lock o (wait_locked o objects).0);
      })
  wait_begins-Inv i o free =
      quiet-Inv (wait_locked o objects).1 i (after_lock o (wait_locked o objects).0)
        (wait_locked-EventsOk o objects events_ok) (wait_locked-Grows o objects) (λ d. ground arith)
        (waiting_thread o objects) (wait_locked_sets o objects) (wait_locked_same o objects)

read_thread :
    (o : ℕ) (s : ObjectStore) → contains o s ≡ true → ThreadOk s (after_read o (lookup o s.store))
unfolding contains has_key
read_thread o s h = elim (Option-cases (lookup o s.store)) [
  | inl e ↦ absurd (ground arith)
  | inr (v, e) ↦ rw e tt
]

-- Every step keeps the invariant.
Step-Inv : {s t : System} → Step s t → Inv s → Inv t
Step-Inv {s} (put_begins i o v free e) inv = subst Inv (sym e) (put_begins-Inv s inv i o v free)
Step-Inv {s} (put_ends i event mine e) inv = subst Inv (sym e) (put_ends-Inv s inv i event mine)
Step-Inv {s} (wait_begins i o free e) inv = subst Inv (sym e) (wait_begins-Inv s inv i o free)
Step-Inv {s} (wakes i o d mine set e) inv = subst Inv (sym e) (
    still-Inv s inv i (woken o) (λ d. ground arith)
      (inv.events_ok.set_there o d (subst (ThreadOk s.objects) mine (inv.thread_ok i)) set))
Step-Inv {s} (times_out i o d mine e) inv =
    subst Inv (sym e) (still-Inv s inv i (timeout_error o) (λ d. ground arith) tt)
Step-Inv {s} (reads i o mine e) inv = subst Inv (sym e) (
    still-Inv s inv i (after_read o (lookup o s.objects.store)) (λ d. ground arith)
      (read_thread o s.objects (subst (ThreadOk s.objects) mine (inv.thread_ok i))))
Step-Inv {s} (goes_on i v mine e) inv =
    subst Inv (sym e) (still-Inv s inv i idle (λ d. ground arith) tt)

Inv-start : Inv start
unfolding init is_set lookup elem
Inv-start = record {
  events_ok = record {
    made = λ o e q. absurd (ground arith);
    set_made = λ e q. absurd (ground arith);
    own = λ o p e q r. absurd (ground arith);
    set_there = λ o e q r. absurd (ground arith);
  };
  thread_ok = λ i. tt;
  announced = λ o e q h. absurd (ground arith);
}

pub Reach-Inv : {s : System} → Reach s → Inv s
Reach-Inv here = Inv-start
Reach-Inv (next r st) = Step-Inv st (Reach-Inv r)
