-- ===== src/ObjectStore/Waiting/Moves.antt =====
-- What the locked parts and the threads of python/nano_ray/_fallback/object_store.py do to events,
-- objects and positions.
use nano_ray.Prelude.{
  ℕ, ap, ◌≢◌, ◌≡◌, Option, none, some, true, inl, inr, ◌==◌, arith, elem, Option-cases, Bool-cases,
}
use nano_ray.Prelude.Dict.{lookup, lookup-insert, contains as has_key}
use nano_ray.Values.{Value}
use nano_ray.ObjectStore.{ObjectStore, put_locked, signal, wait_locked, is_set, contains}
use nano_ray.ObjectStore.Waiting.{
  Thread, idle, signalling, waiting, woken, returned, timeout_error, key_error, System, update,
  after_lock,
}
use nano_ray.ObjectStore.Waiting.Invariant.{EventsOk, ThreadOk, Announced}

pub put_locked-EventsOk :
    (o : ℕ) (v : Value) (s : ObjectStore) → EventsOk s → EventsOk (put_locked o v s).1
unfolding put_locked is_set contains has_key
put_locked-EventsOk o v s k = record {
  made = k.made;
  set_made = k.set_made;
  own = k.own;
  set_there = λ p e q r. ground (arith, k.set_there p e q r, lookup-insert o p v s.store);
}

pub signal-EventsOk :
    (o e : ℕ) (s : ObjectStore)
    → lookup o s.events ≡ some e
    → contains o s ≡ true
    → EventsOk s
    → EventsOk (signal (some e) s)
unfolding signal is_set contains elem has_key
signal-EventsOk o e s mine there k = record {
  made = k.made;
  set_made = λ d r. ground (arith, k.set_made d, k.made o e mine);
  own = k.own;
  set_there = λ p d q r. ground (arith, k.set_there p d q, k.own o p e mine);
}

pub wait_locked-EventsOk : (o : ℕ) (s : ObjectStore) → EventsOk s → EventsOk (wait_locked o s).1
unfolding wait_locked is_set contains has_key
wait_locked-EventsOk o s k = elim (Option-cases (lookup o s.store)) [
  | inr (v, e) ↦ rw (e, wait_locked) k
  | inl absent ↦ elim (Option-cases (lookup o s.events)) [
    | inr (ev, e) ↦ rw (absent, wait_locked, e) k
    | inl new ↦
        rw (absent, wait_locked, new)
          (record {
            made = λ p e q. ground (arith, k.made p e, lookup-insert o p s.next_event s.events);
            set_made = λ e r. ground (arith, k.set_made e r);
            own = λ p q e r r'. ground (
              arith,
              lookup-insert o p s.next_event s.events,
              lookup-insert o q s.next_event s.events,
              k.own p q e,
              k.made p e,
              k.made q e,
            );
            set_there = λ p e q r.
                ground
                  (arith, lookup-insert o p s.next_event s.events, k.set_there p e, k.set_made e);
          })
  ]
]

-- No event is dropped and no object goes.
pub record Grows (s s' : ObjectStore) : Type 0 where
  pub keeps_events : (o e : ℕ) → lookup o s.events ≡ some e → lookup o s'.events ≡ some e
  pub keeps_objects : (o : ℕ) → contains o s ≡ true → contains o s' ≡ true

pub put_locked-Grows : (o : ℕ) (v : Value) (s : ObjectStore) → Grows s (put_locked o v s).1
unfolding put_locked contains has_key
put_locked-Grows o v s = record {
  keeps_events = λ p e q. q;
  keeps_objects = λ p h. ground (arith, lookup-insert o p v s.store);
}

pub signal-Grows : (e : Option ℕ) (s : ObjectStore) → Grows s (signal e s)
unfolding signal contains
signal-Grows none s = record { keeps_events = λ p e q. q; keeps_objects = λ p h. h }
signal-Grows (some e) s = record { keeps_events = λ p e q. q; keeps_objects = λ p h. h }

pub wait_locked-Grows : (o : ℕ) (s : ObjectStore) → Grows s (wait_locked o s).1
unfolding wait_locked contains
wait_locked-Grows o s = record {
  keeps_events = λ p e q. ground (arith, lookup-insert o p s.next_event s.events);
  keeps_objects = λ p h. ground arith;
}

ThreadOk-Grows : {s s' : ObjectStore} (t : Thread) → Grows s s' → ThreadOk s t → ThreadOk s' t
ThreadOk-Grows idle g h = tt
ThreadOk-Grows (signalling none) g h = tt
ThreadOk-Grows (signalling (some e)) g (o, mine, there) =
    (o, g.keeps_events o e mine, g.keeps_objects o there)
ThreadOk-Grows (waiting o e) g h = g.keeps_events o e h
ThreadOk-Grows (woken o) g h = g.keeps_objects o h
ThreadOk-Grows (returned v) g h = tt
ThreadOk-Grows (timeout_error o) g h = tt
ThreadOk-Grows (key_error o) g h = h

-- One thread moves, and the store grows.
pub update-ThreadOk :
    (s s' : ObjectStore) (threads : ℕ → Thread) (i : ℕ) (t : Thread)
    → Grows s s'
    → ((j : ℕ) → ThreadOk s (threads j))
    → ThreadOk s' t
    → (j : ℕ) → ThreadOk s' (update threads i t j)
update-ThreadOk s s' threads i t g all mine j = elim (Bool-cases (j == i)) [
  | inl e ↦ rw e mine
  | inr e ↦ rw e (ThreadOk-Grows (threads j) g (all j))
]

-- A thread that has no event to set moves, and no event is unset.
pub update-Announced :
    (s t : System) (i o e : ℕ) (thread : Thread)
    → t.threads ≡ update s.threads i thread
    → ((d : ℕ) → s.threads i ≢ signalling (some d))
    → (is_set e s.objects ≡ true → is_set e t.objects ≡ true)
    → Announced s o e
    → Announced t o e
update-Announced s t i o e thread same other keeps (inl h) = inl (keeps h)
update-Announced s t i o e thread same other keeps (inr (j, h)) =
    inr (j, ground (arith, ap (λ (f : ℕ → Thread). f j) same, other e))

pub locked_thread :
    (o : ℕ) (v : Value) (s : ObjectStore)
    → ThreadOk (put_locked o v s).1 (signalling (put_locked o v s).0)
unfolding put_locked contains has_key
locked_thread o v s = elim (Option-cases (lookup o s.events)) [
  | inl e ↦ rw e tt
  | inr (d, e) ↦ rw e (o, e, ground (arith, lookup-insert o o v s.store))
]

pub waiting_thread :
    (o : ℕ) (s : ObjectStore) → ThreadOk (wait_locked o s).1 (after_lock o (wait_locked o s).0)
unfolding wait_locked
waiting_thread o s = elim (Option-cases (lookup o s.store)) [
  | inr (v, e) ↦ rw (e, wait_locked) tt
  | inl absent ↦ elim (Option-cases (lookup o s.events)) [
    | inr (d, e) ↦ rw (absent, wait_locked, e) e
    | inl new ↦
        rw (absent, wait_locked, new) (ground (arith, lookup-insert o o s.next_event s.events))
  ]
]

pub wait_locked_sets :
    (o : ℕ) (s : ObjectStore) (e : ℕ) → is_set e s ≡ true → is_set e (wait_locked o s).1 ≡ true
unfolding wait_locked is_set
wait_locked_sets o s e h = ground arith

-- A new event belongs to an object that is not there.
pub wait_locked_same :
    (o : ℕ) (s : ObjectStore) (p e : ℕ)
    → lookup p (wait_locked o s).1.events ≡ some e
    → contains p (wait_locked o s).1 ≡ true
    → (lookup p s.events ≡ some e) × (contains p s ≡ true)
unfolding wait_locked contains has_key
wait_locked_same o s p e q h = ground (arith, lookup-insert o p s.next_event s.events)
