-- ===== src/Driver/Meaning.antt =====
-- What a task's result is, apart from queues, workers and threads: the value of its function at the
-- values of its dependencies, as the ownership table records them (python/nano_ray/driver.py and
-- python/nano_ray/_fallback/ownership.py).
use nano_ray.Prelude.{ℕ, ◌≡◌, ap, List, [], ◌∷◌, some, true, arith, elem}
use nano_ray.Values.{Value, Items, Fields, Func}
use nano_ray.Ownership.{OwnershipTable, get_producer_task, get_task_lineage}
use nano_ray.Dag.{extract_dependencies, resolve_args}
use nano_ray.Dag.Resolve.{Agree, resolve_args_congr}
use nano_ray.Worker.{returned, Platform, outcome}

module _ (p : Platform) where
  abbrev pub Table : Type 0
  Table = OwnershipTable p.Bytes

  -- Object `o` has the value `v`: its producer's function, at its arguments with each reference
  -- replaced by the value `g` of the object, gives `v`; and `g` is right for each of them.
  pub data Denotes (table : Table) : ℕ → Value → Type 0 where
    denotes :
        {o t : ℕ} {v : Value} {bytes : p.Bytes} {deps : List ℕ} {func : Func} {args a : Items}
        {kwargs k : Fields} (g : ℕ → Value)
        → get_producer_task o table ≡ some t
        → get_task_lineage t table ≡ some (bytes, deps)
        → p.loads_task bytes ≡ returned (func, args, kwargs)
        → ((d : ℕ) → elem d (extract_dependencies args kwargs) ≡ true → Denotes table d (g d))
        → resolve_args (λ d. some (g d)) args kwargs ≡ some (a, k)
        → v ≡ outcome p t func a k
        → Denotes table o v

  -- A later table: no producer and no lineage is forgotten.
  pub record Extends (table table' : Table) : Type 0 where
    pub producers :
        (o t : ℕ) → get_producer_task o table ≡ some t → get_producer_task o table' ≡ some t
    pub lineages :
        (t : ℕ) (l : p.Bytes × List ℕ)
        → get_task_lineage t table ≡ some l
        → get_task_lineage t table' ≡ some l

  pub Denotes-Extends :
      {table table' : Table} {o : ℕ} {v : Value}
      → Extends table table'
      → Denotes table o v
      → Denotes table' o v
  Denotes-Extends {table} {table'} ext (denotes {t = t} g prod lin loads deps_ok res val) =
      denotes g (ext.producers _ t prod) (ext.lineages t _ lin) loads
        (λ d h. Denotes-Extends ext (deps_ok d h)) res val

  -- Agreement on the elements of a list.
  Agree-of_elem :
      (f g : ℕ → Value) (os : List ℕ)
      → ((d : ℕ) → elem d os ≡ true → f d ≡ g d)
      → Agree (λ d. some (f d)) (λ d. some (g d)) os
  unfolding elem
  Agree-of_elem f g [] h = tt
  Agree-of_elem f g (o ∷ os) h =
      (ap some (h o (ground arith)), Agree-of_elem f g os (λ d e. h d (ground arith)))

  -- An object has one value, however and whenever its task runs.
  pub Denotes-unique :
      {table : Table} {o : ℕ} {v w : Value} → Denotes table o v → Denotes table o w → v ≡ w
  Denotes-unique
        (denotes {t = t} {func = func} {args = args} {a = a} {kwargs = kwargs} {k = k} g prod lin
          loads deps_ok res val)
        (denotes {t = t'} {func = func'} {args = args'} {a = a'} {kwargs = kwargs'} {k = k'} g'
          prod' lin' loads' deps_ok' res' val') =
      let same_task : t ≡ t' = cc in
      let same_args : args ≡ args' = cc in
      let same_kwargs : kwargs ≡ kwargs' = cc in
      let same_func : func ≡ func' = cc in
      let values : (d : ℕ) → elem d (extract_dependencies args kwargs) ≡ true → g d ≡ g' d =
        λ d h. Denotes-unique (deps_ok d h) (deps_ok' d (rw (same_args, same_kwargs) at h)) in
      let resolved : resolve_args (λ d. some (g d)) args kwargs
          ≡ resolve_args (λ d. some (g' d)) args kwargs =
        resolve_args_congr (λ d. some (g d)) (λ d. some (g' d)) args kwargs
          (Agree-of_elem g g' (extract_dependencies args kwargs) values) in
      let same_a : a ≡ a' = cc in let same_k : k ≡ k' = cc in cc

  -- Each value is that of the object in its place.
  abbrev pub AllDenote : Table → List ℕ → List Value → Type 0
  AllDenote table [] [] = Unit
  AllDenote table (o ∷ os) (v ∷ vs) = Denotes table o v × AllDenote table os vs
  AllDenote table _ _ = ⊥
