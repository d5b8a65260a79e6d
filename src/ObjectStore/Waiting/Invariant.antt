-- ===== src/ObjectStore/Waiting/Invariant.antt =====
-- What holds whenever threads put objects and wait for them, and none deletes any: see
-- python/nano_ray/_fallback/object_store.py.
use nano_ray.Prelude.{ℕ, ◌<◌, ◌≡◌, none, some, true, ◌⊎◌}
use nano_ray.Prelude.Dict.{lookup}
use nano_ray.ObjectStore.{ObjectStore, is_set, contains}
use nano_ray.ObjectStore.Waiting.{
  Thread, idle, signalling, waiting, woken, returned, timeout_error, key_error, System,
}

-- The events of a store: each object has its own, an event that is set belongs to an object that
-- is there, and no event is set before it is made.
pub record EventsOk (s : ObjectStore) : Type 0 where
  pub made : (o e : ℕ) → lookup o s.events ≡ some e → e < s.next_event
  pub set_made : (e : ℕ) → is_set e s ≡ true → e < s.next_event
  pub own : (o p e : ℕ) → lookup o s.events ≡ some e → lookup p s.events ≡ some e → o ≡ p
  pub set_there : (o e : ℕ) → lookup o s.events ≡ some e → is_set e s ≡ true → contains o s ≡ true

-- What a thread's position says.
abbrev pub ThreadOk : ObjectStore → Thread → Type 0
ThreadOk s idle = Unit
ThreadOk s (signalling none) = Unit
ThreadOk s (signalling (some e)) = (o : ℕ) × (lookup o s.events ≡ some e) × (contains o s ≡ true)
ThreadOk s (waiting o e) = lookup o s.events ≡ some e
ThreadOk s (woken o) = contains o s ≡ true
ThreadOk s (returned v) = Unit
ThreadOk s (timeout_error o) = Unit
ThreadOk s (key_error o) = ⊥

-- The event of an object that is there is set, or some thread is about to set it.
abbrev pub Announced : System → ℕ → ℕ → Type 0
Announced s o e = (is_set e s.objects ≡ true) ⊎ ((i : ℕ) × (s.threads i ≡ signalling (some e)))

pub record Inv (s : System) : Type 0 where
  pub events_ok : EventsOk s.objects
  pub thread_ok : (i : ℕ) → ThreadOk s.objects (s.threads i)
  pub announced :
      (o e : ℕ) → lookup o s.objects.events ≡ some e → contains o s.objects ≡ true → Announced s o e
