-- ===== src/Dag/Resolve.antt =====
-- `resolve_args` of python/nano_ray/dag.py against the references that `extract_dependencies`
-- finds in the same arguments.
use nano_ray.Prelude.{
  ℕ, ◌≡◌, refl, sym, ◌∙◌, ap, List, [], ◌∷◌, ◌++◌, Option, none, some, Bool, true, ◌&&◌, append-nil,
  append_assoc, arith, is_some,
}
use nano_ray.Prelude.Maybe.{◌>>=◌, >>=-eq-some}
use nano_ray.Values.{
  Value, py_none, obj, object_ref, list, tuple, dict, task_error, actor_state, Items, nil, cons,
  Fields, end, field,
}
use nano_ray.Dag.{extract_dependencies, resolve, resolve_items, resolve_fields, resolve_args}
use nano_ray.Dag.Refs.{refs, refs_items, refs_fields, extract_dependencies-refs}

module _ (get_fn : ℕ → Option Value) where
  -- `get_fn` returns for each of the objects.
  unfoldable pub all_return : List ℕ → Bool
  all_return [] = true
  all_return (o ∷ os) = is_some (get_fn o) && all_return os

  all_return-append : (xs ys : List ℕ) → all_return (xs ++ ys) ≡ (all_return xs && all_return ys)
  unfolding all_return
  all_return-append [] ys = refl
  all_return-append (x ∷ xs) ys = ground (arith, all_return-append xs ys)

  mutual
    unfolding resolve refs all_return

    is_some-resolve : (v : Value) → is_some (resolve get_fn v) ≡ all_return (refs v)
    is_some-resolve py_none = refl
    is_some-resolve (obj n) = refl
    is_some-resolve (object_ref o) = ground arith
    is_some-resolve (list xs) = ground (arith, is_some-resolve_items xs)
    is_some-resolve (tuple xs) = ground (arith, is_some-resolve_items xs)
    is_some-resolve (dict fs) = ground (arith, is_some-resolve_fields fs)
    is_some-resolve (task_error t e) = refl
    is_some-resolve (actor_state v) = refl

    is_some-resolve_items :
        (xs : Items) → is_some (resolve_items get_fn xs) ≡ all_return (refs_items xs)
    is_some-resolve_items nil = refl
    is_some-resolve_items (cons x xs) = ground (
      arith,
      is_some-resolve x,
      is_some-resolve_items xs,
      all_return-append (refs x) (refs_items xs),
    )

    is_some-resolve_fields :
        (fs : Fields) → is_some (resolve_fields get_fn fs) ≡ all_return (refs_fields fs)
    is_some-resolve_fields end = refl
    is_some-resolve_fields (field k v fs) = ground (
      arith,
      is_some-resolve v,
      is_some-resolve_fields fs,
      all_return-append (refs v) (refs_fields fs),
    )

  -- Resolution returns exactly if every extracted dependency can be had: the two walks of a task's
  -- arguments see the same references.
  pub is_some-resolve_args :
      (args : Items) (kwargs : Fields)
      → is_some (resolve_args get_fn args kwargs) ≡ all_return (extract_dependencies args kwargs)
  unfolding resolve_args
  is_some-resolve_args args kwargs = rw (extract_dependencies-refs args kwargs) (
      ground (
        arith,
        is_some-resolve_items args,
        is_some-resolve_fields kwargs,
        all_return-append (refs_items args) (refs_fields kwargs),
      ))

  -- The references inside the fetched values.
  abbrev refs_of : Option Value → List ℕ
  refs_of none = []
  refs_of (some v) = refs v

  pub refs_fetched : List ℕ → List ℕ
  refs_fetched [] = []
  refs_fetched (o ∷ os) = refs_of (get_fn o) ++ refs_fetched os

  refs_fetched-append :
      (xs ys : List ℕ) → refs_fetched (xs ++ ys) ≡ refs_fetched xs ++ refs_fetched ys
  unfolding refs_fetched
  refs_fetched-append [] ys = refl
  refs_fetched-append (x ∷ xs) ys =
      ap (λ l. refs_of (get_fn x) ++ l) (refs_fetched-append xs ys)
      ∙ sym (append_assoc (refs_of (get_fn x)) (refs_fetched xs) (refs_fetched ys))

  mutual
    unfolding resolve refs refs_fetched

    refs-resolve : (v w : Value) → resolve get_fn v ≡ some w → refs w ≡ refs_fetched (refs v)
    refs-resolve py_none w h = ground arith
    refs-resolve (obj n) w h = ground arith
    refs-resolve (object_ref o) w h = ground (arith, append-nil (refs_of (get_fn o)))
    refs-resolve (list xs) w h =
        let (ys, e, q) = >>=-eq-some (resolve_items get_fn xs) (λ ys. some (list ys)) h in
        ground (arith, refs-resolve_items xs ys e)
    refs-resolve (tuple xs) w h =
        let (ys, e, q) = >>=-eq-some (resolve_items get_fn xs) (λ ys. some (tuple ys)) h in
        ground (arith, refs-resolve_items xs ys e)
    refs-resolve (dict fs) w h =
        let (gs, e, q) = >>=-eq-some (resolve_fields get_fn fs) (λ gs. some (dict gs)) h in
        ground (arith, refs-resolve_fields fs gs e)
    refs-resolve (task_error t e) w h = ground arith
    refs-resolve (actor_state v) w h = ground arith

    refs-resolve_items :
        (xs ys : Items)
        → resolve_items get_fn xs ≡ some ys
        → refs_items ys ≡ refs_fetched (refs_items xs)
    refs-resolve_items nil ys h = ground arith
    refs-resolve_items (cons x xs) ys h =
        let (y, e, q) =
          >>=-eq-some (resolve get_fn x) (λ y. resolve_items get_fn xs >>= λ ys. some (cons y ys))
            h in
        let (zs, e', q') = >>=-eq-some (resolve_items get_fn xs) (λ ys. some (cons y ys)) q in
        ground (
          arith,
          refs-resolve x y e,
          refs-resolve_items xs zs e',
          refs_fetched-append (refs x) (refs_items xs),
        )

    refs-resolve_fields :
        (fs gs : Fields)
        → resolve_fields get_fn fs ≡ some gs
        → refs_fields gs ≡ refs_fetched (refs_fields fs)
    refs-resolve_fields end gs h = ground arith
    refs-resolve_fields (field k v fs) gs h =
        let (w, e, q) =
          >>=-eq-some (resolve get_fn v)
            (λ w. resolve_fields get_fn fs >>= λ gs. some (field k w gs)) h in
        let (hs, e', q') = >>=-eq-some (resolve_fields get_fn fs) (λ gs. some (field k w gs)) q in
        ground (
          arith,
          refs-resolve v w e,
          refs-resolve_fields fs hs e',
          refs_fetched-append (refs v) (refs_fields fs),
        )

  -- Every reference in the arguments is replaced: those left over stand inside fetched values.
  pub refs-resolve_args :
      (args args' : Items) (kwargs kwargs' : Fields)
      → resolve_args get_fn args kwargs ≡ some (args', kwargs')
      → extract_dependencies args' kwargs' ≡ refs_fetched (extract_dependencies args kwargs)
  unfolding resolve_args
  refs-resolve_args args args' kwargs kwargs' h =
      let (xs, e, q) =
        >>=-eq-some (resolve_items get_fn args)
          (λ xs. resolve_fields get_fn kwargs >>= λ gs. some (xs, gs)) h in
      let (gs, e', q') = >>=-eq-some (resolve_fields get_fn kwargs) (λ gs. some (xs, gs)) q in
      ground (
        arith,
        refs-resolve_items args xs e,
        refs-resolve_fields kwargs gs e',
        refs_fetched-append (refs_items args) (refs_fields kwargs),
        extract_dependencies-refs args kwargs,
        extract_dependencies-refs args' kwargs',
      )

-- Only the values of the references matter.
module _ (f g : ℕ → Option Value) where
  abbrev pub Agree : List ℕ → Type 0
  Agree [] = Unit
  Agree (o ∷ os) = (f o ≡ g o) × Agree os

  Agree-left : (xs ys : List ℕ) → Agree (xs ++ ys) → Agree xs
  Agree-left [] ys h = tt
  Agree-left (x ∷ xs) ys h = (h.0, Agree-left xs ys h.1)

  Agree-right : (xs ys : List ℕ) → Agree (xs ++ ys) → Agree ys
  Agree-right [] ys h = h
  Agree-right (x ∷ xs) ys h = Agree-right xs ys h.1

  mutual
    unfolding resolve refs

    resolve_congr : (v : Value) → Agree (refs v) → resolve f v ≡ resolve g v
    resolve_congr py_none h = refl
    resolve_congr (obj n) h = refl
    resolve_congr (object_ref o) h = h.0
    resolve_congr (list xs) h = rw (resolve_congr_items xs h)
    resolve_congr (tuple xs) h = rw (resolve_congr_items xs h)
    resolve_congr (dict fs) h = rw (resolve_congr_fields fs h)
    resolve_congr (task_error t e) h = refl
    resolve_congr (actor_state v) h = refl

    resolve_congr_items :
        (xs : Items) → Agree (refs_items xs) → resolve_items f xs ≡ resolve_items g xs
    resolve_congr_items nil h = refl
    resolve_congr_items (cons x xs) h = rw (
      resolve_congr x (Agree-left (refs x) (refs_items xs) h),
      resolve_congr_items xs (Agree-right (refs x) (refs_items xs) h),
    )

    resolve_congr_fields :
        (fs : Fields) → Agree (refs_fields fs) → resolve_fields f fs ≡ resolve_fields g fs
    resolve_congr_fields end h = refl
    resolve_congr_fields (field k v fs) h = rw (
      resolve_congr v (Agree-left (refs v) (refs_fields fs) h),
      resolve_congr_fields fs (Agree-right (refs v) (refs_fields fs) h),
    )

  pub resolve_args_congr :
      (args : Items) (kwargs : Fields)
      → Agree (extract_dependencies args kwargs)
      → resolve_args f args kwargs ≡ resolve_args g args kwargs
  unfolding resolve_args
  resolve_args_congr args kwargs h =
      let both : Agree (refs_items args ++ refs_fields kwargs) =
        rw (extract_dependencies-refs args kwargs) at h in
      rw (
        resolve_congr_items args (Agree-left (refs_items args) (refs_fields kwargs) both),
        resolve_congr_fields kwargs (Agree-right (refs_items args) (refs_fields kwargs) both),
      )
