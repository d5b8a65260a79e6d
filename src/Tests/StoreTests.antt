-- ===== src/Tests/StoreTests.antt =====
-- python/nano_ray/_fallback/object_store.py on two objects, and two threads.
use nano_ray.Prelude.{
  ℕ, ◌≡◌, ◌≢◌, refl, Option, none, some, Bool, true, false, ◌==◌, if◌then◌else◌, arith,
}
use nano_ray.Prelude.Dict.{lookup}
use nano_ray.Values.{py_none, obj}
use nano_ray.ObjectStore.{
  ObjectStore, init, put, contains, delete, is_set, wait_locked, put_locked, signal,
}
use nano_ray.ObjectStore.Laws.{content, delete-none}
use nano_ray.ObjectStore.Waiting.{
  idle, waiting, signalling, key_error, System, update, after_lock, wait_begins, put_begins,
  put_ends, Reach, here, next,
}
use nano_ray.ObjectStore.Waiting.Safety.{no_key_error, no_lost_wakeup, delete-put_lost}

abbrev two_objects : ObjectStore
two_objects = put 2 py_none (put 1 (obj 10) init)

one_stored : content two_objects 1 ≡ some (obj 10)
unfolding init put lookup nano_ray.Prelude.Dict.insert
one_stored = refl

one_there : content two_objects 1 ≢ some py_none
one_there e = ground (arith, one_stored)

two_none : content two_objects 2 ≡ some py_none
unfolding init put lookup nano_ray.Prelude.Dict.insert
two_none = refl

delete-none_example :
    (contains 2 two_objects ≡ true)
    × ((delete 2 two_objects).0 ≡ false)
    × (contains 2 (delete 2 two_objects).1 ≡ false)
delete-none_example = delete-none 2 two_objects two_none

-- Thread 0 waits for object 1.
abbrev waits : System
waits = record {
  objects = (wait_locked 1 init).1;
  threads = update (λ _. idle) 0 (after_lock 1 (wait_locked 1 init).0);
}

waits-Reach : Reach waits
waits-Reach = next here (wait_begins 0 1 refl refl)

-- Thread 1 stores it.
abbrev stores : System
stores = record {
  objects = (put_locked 1 (obj 10) waits.objects).1;
  threads = update waits.threads 1 (signalling (put_locked 1 (obj 10) waits.objects).0);
}

stores-Reach : Reach stores
stores-Reach = next waits-Reach (put_begins 1 1 (obj 10) refl refl)

abbrev stored : System
stored = record { objects = signal (some 0) stores.objects; threads = update stores.threads 1 idle }

stored-Reach : Reach stored
unfolding put_locked init wait_locked lookup nano_ray.Prelude.Dict.insert
stored-Reach = next stores-Reach (put_ends 1 (some 0) refl refl)

no_key_error_example : stored.threads 0 ≢ key_error 1
no_key_error_example = no_key_error stored-Reach 0 1

is_waiting : stored.threads 0 ≡ waiting 1 0
unfolding put_locked init wait_locked lookup
is_waiting = refl

is_there : contains 1 stored.objects ≡ true
unfolding put_locked init wait_locked contains nano_ray.Prelude.Dict.contains signal
    nano_ray.Prelude.Dict.insert
is_there = refl

none_signalling : (j : ℕ) → stored.threads j ≢ signalling (some 0)
unfolding put_locked init wait_locked
none_signalling j e = ground arith

no_lost_wakeup_example : is_set 0 stored.objects ≡ true
no_lost_wakeup_example = no_lost_wakeup stored-Reach 0 1 0 is_waiting is_there none_signalling

event_there : lookup 1 waits.objects.events ≡ some 0
unfolding init wait_locked lookup nano_ray.Prelude.Dict.insert
event_there = refl

event_unset : is_set 0 waits.objects ≡ false
unfolding init wait_locked is_set nano_ray.Prelude.elem lookup
event_unset = refl

delete-put_lost_example :
    (is_set 0 (put 1 (obj 10) waits.objects) ≡ true)
    × (contains 1 (put 1 (obj 10) (delete 1 waits.objects).1) ≡ true)
    × (is_set 0 (put 1 (obj 10) (delete 1 waits.objects).1) ≡ false)
delete-put_lost_example = delete-put_lost 1 0 (obj 10) waits.objects event_there event_unset
