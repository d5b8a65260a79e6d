-- ===== src/ObjectStore/Waiting/Safety.antt =====
-- What threads that wait in `get_or_wait` of python/nano_ray/_fallback/object_store.py can rely on,
-- and what a `delete` between takes away.
use nano_ray.Prelude.{ℕ, ◌≡◌, ◌≢◌, subst, some, true, false, inl, inr, arith, elem}
use nano_ray.Prelude.Dict.{lookup, lookup-erase}
use nano_ray.Values.{Value}
use nano_ray.ObjectStore.{ObjectStore, put, contains, delete, is_set}
use nano_ray.ObjectStore.Laws.{contains-put}
use nano_ray.ObjectStore.Waiting.{signalling, waiting, key_error, System, Reach}
use nano_ray.ObjectStore.Waiting.Invariant.{ThreadOk}
use nano_ray.ObjectStore.Waiting.Kept.{Reach-Inv}

-- In every state that threads can reach without a deletion, no thread has failed in the unlocked
-- read at the end of `get_or_wait`.
pub no_key_error : {s : System} → Reach s → (i o : ℕ) → s.threads i ≢ key_error o
no_key_error {s} r i o h = subst (ThreadOk s.objects) h ((Reach-Inv r).thread_ok i)

-- In every state that threads can reach without a deletion, no wakeup is lost: a thread that waits
-- for an object which is in the store has its event set, unless some thread is about to set it.
pub no_lost_wakeup :
    {s : System}
    → Reach s
    → (i o e : ℕ) → s.threads i ≡ waiting o e
    → contains o s.objects ≡ true
    → ((j : ℕ) → s.threads j ≢ signalling (some e))
    → is_set e s.objects ≡ true
no_lost_wakeup {s} r i o e waits there quiet =
    elim ((Reach-Inv r).announced o e (subst (ThreadOk s.objects) waits ((Reach-Inv r).thread_ok i))
      there) [ inl set ↦ set | inr (j, busy) ↦ absurd (quiet j busy) ]

-- A `put` sets the event that waiters of its object hold. With a `delete` between, the wakeup is
-- lost: the event leaves the dict, and the `put` that follows stores the object without setting it.
pub delete-put_lost :
    (o e : ℕ) (v : Value) (s : ObjectStore)
    → lookup o s.events ≡ some e
    → is_set e s ≡ false
    → (is_set e (put o v s) ≡ true)
      × (contains o (put o v (delete o s).1) ≡ true)
      × (is_set e (put o v (delete o s).1) ≡ false)
unfolding put delete is_set elem
delete-put_lost o e v s mine unset = (
  ground arith,
  ground (arith, contains-put o v (delete o s).1 o),
  ground (arith, lookup-erase o o s.events),
)
