-- ===== src/ObjectStore/Laws.antt =====
-- The store of python/nano_ray/_fallback/object_store.py as a map from ids to values.
use nano_ray.Prelude.{
  ℕ, ◌≡◌, refl, Option, none, some, true, false, arith, ◌==◌, if◌then◌else◌, ◌≢◌, is_some,
}
use nano_ray.Prelude.Dict.{
  Dict, lookup, insert, erase, lookup-insert, lookup-erase, length-insert, contains-insert,
  contains-erase,
}
use nano_ray.Prelude.Dict
use nano_ray.Values.{Value, py_none}
use nano_ray.ObjectStore.{ObjectStore, put, contains, is_not_none, delete, get_now}

-- The map that the store stands for.
abbrev pub content : ObjectStore → ℕ → Option Value
content s object_id = lookup object_id s.store

pub store-put : (o : ℕ) (v : Value) (s : ObjectStore) → (put o v s).store ≡ insert o v s.store
unfolding put
store-put o v s = ground arith

pub content-put :
    (o : ℕ) (v : Value) (s : ObjectStore) (j : ℕ)
    → content (put o v s) j ≡ (if j == o then some v else content s j)
content-put o v s j = ground (arith, store-put o v s, lookup-insert o j v s.store)

pub content-delete :
    (o : ℕ) (s : ObjectStore) (j : ℕ)
    → content (delete o s).1 j ≡ (if j == o then none else content s j)
unfolding delete
content-delete o s j = lookup-erase o j s.store

pub contains-content : (o : ℕ) (s : ObjectStore) → contains o s ≡ is_some (content s o)
unfolding contains Dict.contains
contains-content o s = refl

pub contains-put :
    (o : ℕ) (v : Value) (s : ObjectStore) (j : ℕ)
    → contains j (put o v s) ≡ (if j == o then true else contains j s)
contains-put o v s j =
    ground (arith, contains-content j (put o v s), contains-content j s, content-put o v s j)

pub contains-put_kept :
    (o : ℕ) (v : Value) (s : ObjectStore) (j : ℕ)
    → contains j s ≡ true
    → contains j (put o v s) ≡ true
contains-put_kept o v s j h = ground (arith, contains-put o v s j)

-- Deleting an object that is not Python's `None` reports whether it was there, removes it and
-- touches no other.
pub delete_lem :
    (o : ℕ) (s : ObjectStore)
    → content s o ≢ some py_none
    → ((delete o s).0 ≡ contains o s)
      × ((j : ℕ) → content (delete o s).1 j ≡ (if j == o then none else content s j))
unfolding delete is_not_none contains Dict.contains
delete_lem o s h = (ground arith, content-delete o s)

-- An object that is `None` is removed like any other, but `delete` reports that there was none.
pub delete-none :
    (o : ℕ) (s : ObjectStore)
    → content s o ≡ some py_none
    → (contains o s ≡ true) × ((delete o s).0 ≡ false) × (contains o (delete o s).1 ≡ false)
unfolding delete is_not_none contains Dict.contains
delete-none o s h = (ground arith, ground arith, ground (arith, lookup-erase o o s.store))

pub get_now-content : (o : ℕ) (s : ObjectStore) → get_now o s ≡ content s o
unfolding get_now
get_now-content o s = ground arith
