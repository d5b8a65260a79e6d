-- ===== src/ObjectStore.antt =====
-- python/nano_ray/_fallback/object_store.py: the class `ObjectStore`. A `threading.Event` is an
-- address in a heap of events, since a waiter keeps its event when the dict drops it; `signalled`
-- lists the events that are set. What a method does between taking and releasing the lock is one
-- function: the methods that leave the lock are composed from those (`put`, and `get_or_wait` in
-- ObjectStore.Waiting).
pub mod Laws
pub mod Waiting
use nano_ray.Prelude.{
  ℕ, suc, ◌+◌, List, [], ◌∷◌, Option, none, some, Bool, true, false, ◌⊎◌, inl, inr, elem, length,
}
use nano_ray.Prelude.Dict.{Dict, lookup, insert, erase, contains as has_key}
use nano_ray.Values.{Value, py_none}

pub record ObjectStore : Type 0 where
  pub store : Dict Value
  pub events : Dict ℕ
  pub signalled : List ℕ
  pub next_event : ℕ

unfoldable pub init : ObjectStore
init = record { store = []; events = []; signalled = []; next_event = 0 }

-- The locked part of `put`: the event to set afterwards, and the store.
unfoldable pub put_locked : ℕ → Value → ObjectStore → Option ℕ × ObjectStore
put_locked object_id value s =
    (lookup object_id s.events, record s { store = insert object_id value s.store })

-- `if event is not None: event.set()`
unfoldable pub signal : Option ℕ → ObjectStore → ObjectStore
signal none s = s
signal (some event) s = record s { signalled = event ∷ s.signalled }

unfoldable pub put : ℕ → Value → ObjectStore → ObjectStore
unfolding put_locked signal
put object_id value s = let (event, s') = put_locked object_id value s in signal event s'

-- Found, and the value; Python's `None` where nothing is found.
unfoldable pub get : ℕ → ObjectStore → Bool × Value
get object_id s = elim (lookup object_id s.store) [
  | none ↦ (false, py_none)
  | some value ↦ (true, value)
]

unfoldable pub contains : ℕ → ObjectStore → Bool
contains object_id s = has_key object_id s.store

-- `x is not None`, of what `dict.pop(object_id, None)` gives.
unfoldable pub is_not_none : Option Value → Bool
is_not_none none = false
is_not_none (some py_none) = false
is_not_none (some _) = true

unfoldable pub delete : ℕ → ObjectStore → Bool × ObjectStore
delete object_id s = (
  is_not_none (lookup object_id s.store),
  record s { store = erase object_id s.store; events = erase object_id s.events },
)

unfoldable pub size : ObjectStore → ℕ
size s = length s.store

-- The locked part of `get_or_wait`: the value, or the event to wait for.
unfoldable pub wait_locked : ℕ → ObjectStore → (Value ⊎ ℕ) × ObjectStore
wait_locked object_id s = elim (lookup object_id s.store) [
  | some value ↦ (inl value, s)
  | none ↦ elim (lookup object_id s.events) [
    | some event ↦ (inr event, s)
    | none ↦ (
      inr s.next_event,
      record s { events = insert object_id s.next_event s.events; next_event = suc s.next_event },
    )
  ]
]

-- `event.is_set()`
unfoldable pub is_set : ℕ → ObjectStore → Bool
is_set event s = elem event s.signalled

-- `get_or_wait` where it need not wait: the value, if the object is there.
unfoldable pub get_now : ℕ → ObjectStore → Option Value
unfolding wait_locked
get_now object_id s = elim (wait_locked object_id s).0 [ inl value ↦ some value | inr event ↦ none ]
