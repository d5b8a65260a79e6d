-- ===== src/Prelude/Dict.antt =====
-- Python's `dict` with ids for keys, as an association list in insertion order. A dict holds a key
-- once: `erase` drops every entry of its key, and `IsUnique` is kept by both writes.
use Prim.Native.Nat.{ℕ, suc}
use mathlib.Core.Path.{◌≡◌, refl, sym, ap, ◌∙◌}
use mathlib.Core.Logic.{inl, inr, ∥∥₁_map}
use mathlib.Core.Logic.Or
use mathlib.Core.Bool.{Bool, true, false}
use mathlib.Core.Option.{Option, none, some}
use mathlib.Core.List.{List, [], ◌∷◌, ◌++◌, map, Perm, Mem, mem-cons, not-mem-nil}
use mathlib.Core.List.Perm
use native.Mathlib.Omega.{arith}
use nano_ray.Prelude.Tests.{◌==◌, if◌then◌else◌, is_some, Bool-cases, Option-cases, ==_iff}
use nano_ray.Prelude.Maybe.{map_some}
use nano_ray.Prelude.Lists.{length}

abbrev pub Dict {ℓ} : Type ℓ → Type ℓ
Dict V = List (ℕ × V)

module _ {ℓ} {V : Type ℓ} where
  -- `d.get(k)`
  unfoldable pub lookup : ℕ → Dict V → Option V
  lookup k [] = none
  lookup k ((j, v) ∷ d) = if k == j then some v else lookup k d

  -- `d[k] = v`: a key that is there keeps its place.
  unfoldable pub insert : ℕ → V → Dict V → Dict V
  insert k v [] = (k, v) ∷ []
  insert k v ((j, w) ∷ d) = if k == j then (k, v) ∷ d else (j, w) ∷ insert k v d

  -- `del d[k]`, and what `d.pop(k, default)` leaves.
  unfoldable pub erase : ℕ → Dict V → Dict V
  erase k [] = []
  erase k ((j, w) ∷ d) = let rest = erase k d in if k == j then rest else (j, w) ∷ rest

  -- `k in d`
  unfoldable pub contains : ℕ → Dict V → Bool
  unfolding lookup
  contains k d = is_some (lookup k d)

  abbrev pub values : Dict V → List V
  values = map (λ e. e.1)

  pub lookup-insert :
      (k j : ℕ) (v : V) (d : Dict V)
      → lookup j (insert k v d) ≡ (if j == k then some v else lookup j d)
  unfolding lookup insert
  lookup-insert k j v [] = refl
  lookup-insert k j v ((i, w) ∷ d) = ground (arith, lookup-insert k j v d)

  pub lookup-erase :
      (k j : ℕ) (d : Dict V) → lookup j (erase k d) ≡ (if j == k then none else lookup j d)
  unfolding lookup erase
  lookup-erase k j [] = ground arith
  lookup-erase k j ((i, w) ∷ d) = ground (arith, lookup-erase k j d)

  pub contains-insert :
      (k j : ℕ) (v : V) (d : Dict V)
      → contains j (insert k v d) ≡ (if j == k then true else contains j d)
  unfolding contains
  contains-insert k j v d = ground (arith, lookup-insert k j v d)

  pub contains-erase :
      (k j : ℕ) (d : Dict V) → contains j (erase k d) ≡ (if j == k then false else contains j d)
  unfolding contains
  contains-erase k j d = ground (arith, lookup-erase k j d)

  -- No key stands twice.
  abbrev pub IsUnique : Dict V → Type ℓ
  IsUnique [] = Unit
  IsUnique ((j, w) ∷ d) = (lookup j d ≡ none) × IsUnique d

  pub insert-IsUnique : (k : ℕ) (v : V) (d : Dict V) → IsUnique d → IsUnique (insert k v d)
  unfolding insert lookup
  insert-IsUnique k v [] u = (refl, tt)
  insert-IsUnique k v ((j, w) ∷ d) u =
      ground (arith, insert-IsUnique k v d u.1, lookup-insert k j v d)

  pub erase-IsUnique : (k : ℕ) (d : Dict V) → IsUnique d → IsUnique (erase k d)
  unfolding erase
  erase-IsUnique k [] u = tt
  erase-IsUnique k ((j, w) ∷ d) u = ground (arith, erase-IsUnique k d u.1, lookup-erase k j d)

  pub erase_absent : (k : ℕ) (d : Dict V) → lookup k d ≡ none → erase k d ≡ d
  unfolding erase lookup
  erase_absent k [] h = refl
  erase_absent k ((j, w) ∷ d) h = ground (arith, erase_absent k d)

  pub insert_absent :
      (k : ℕ) (v : V) (d : Dict V) → lookup k d ≡ none → insert k v d ≡ d ++ (k, v) ∷ []
  unfolding insert lookup
  insert_absent k v [] h = refl
  insert_absent k v ((j, w) ∷ d) h = ground (arith, insert_absent k v d)

  pub length-insert :
      (k : ℕ) (v : V) (d : Dict V)
      → length (insert k v d) ≡ (if contains k d then length d else suc (length d))
  unfolding insert contains
  length-insert k v [] = refl
  length-insert k v ((j, w) ∷ d) = ground (arith, length-insert k v d)

  -- Taking an entry out: its value, and the values of the others.
  pub values-erase-perm :
      (k : ℕ) (v : V) (d : Dict V)
      → IsUnique d
      → lookup k d ≡ some v
      → Perm (values d) (v ∷ values (erase k d))
  unfolding lookup erase
  values-erase-perm k v [] u h = absurd (ground arith)
  values-erase-perm k v ((j, w) ∷ d) u h = elim (Bool-cases (k == j)) [
    | inl e ↦ rw (e, erase_absent k d (ground arith)) (Perm.cons' (ground arith) Perm.rfl)
    | inr e ↦
        rw e
          (Perm.trans (Perm.cons w (values-erase-perm k v d u.1 (ground arith))) (Perm.swap v w _))
  ]

-- An update that a view of the values does not see.
pub map-values-insert {ℓ κ} :
    {V : Type ℓ} {W : Type κ} (f : V → W) (k : ℕ) (v w : V) (d : Dict V)
    → lookup k d ≡ some v
    → f w ≡ f v
    → map f (values (insert k w d)) ≡ map f (values d)
unfolding lookup insert
map-values-insert f k v w [] h e = absurd (ground arith)
map-values-insert f k v w ((j, u) ∷ d) h e = elim (Bool-cases (k == j)) [
  | inl hit ↦ rw hit (ap (λ x. x ∷ map f (values d)) (e ∙ ap f (ground arith)))
  | inr miss ↦ rw miss (ap (◌∷◌ (f u)) (map-values-insert f k v w d (ground arith) e))
]

pub map-values-insert_absent {ℓ κ} :
    {V : Type ℓ} {W : Type κ} (f : V → W) (k : ℕ) (v : V) (d : Dict V)
    → lookup k d ≡ none
    → map f (values (insert k v d)) ≡ map f (values d) ++ f v ∷ []
unfolding lookup insert
map-values-insert_absent f k v [] h = refl
map-values-insert_absent f k v ((j, u) ∷ d) h = elim (Bool-cases (k == j)) [
  | inl hit ↦ absurd (ground arith)
  | inr miss ↦ rw miss (ap (◌∷◌ (f u)) (map-values-insert_absent f k v d (ground arith)))
]

-- A value of the dict is the value of some key.
pub lookup_of_mem-values {ℓ κ} :
    {V : Type ℓ} {W : Type κ} (f : V → W) (x : W) (d : Dict V)
    → IsUnique d
    → Mem x (map f (values d))
    → ∥ ((k : ℕ) × (v : V) × (lookup k d ≡ some v) × (f v ≡ x)) ∥₁
unfolding lookup
lookup_of_mem-values f x [] u m = absurd (not-mem-nil m)
lookup_of_mem-values f x ((j, v) ∷ d) u m =
    Or.elim squash₁ (mem-cons.0 m) (λ e. ∣ (j, v, ground arith, sym e) ∣₁)
      (λ n. ∥∥₁_map (lookup_of_mem-values f x d u.1 n) (λ (k, w, e, q). (k, w, ground arith, q)))

module _ {ℓ κ} {V : Type ℓ} {W : Type κ} where
  -- `entry[f] if entry else None`, with `entry = d.get(k)`
  unfoldable pub get_field : (V → W) → ℕ → Dict V → Option W
  unfolding lookup
  get_field f k d = map_some f (lookup k d)

  pub get_field-insert :
      (f : V → W) (k j : ℕ) (v : V) (d : Dict V)
      → get_field f j (insert k v d) ≡ (if j == k then some (f v) else get_field f j d)
  unfolding get_field
  get_field-insert f k j v d =
      rw (lookup-insert k j v d) (elim (Bool-cases (j == k)) [ inl e ↦ rw e | inr e ↦ rw e ])

module _ {ℓ} {V : Type ℓ} where
  -- `if k in d: d[k] = g(d[k])`
  unfoldable pub modify : (V → V) → ℕ → Dict V → Dict V
  unfolding lookup insert
  modify g k d = elim (lookup k d) [ none ↦ d | some v ↦ insert k (g v) d ]

  pub lookup-modify :
      (g : V → V) (k j : ℕ) (d : Dict V)
      → lookup j (modify g k d) ≡ (if j == k then map_some g (lookup k d) else lookup j d)
  unfolding modify
  lookup-modify g k j d = elim (Option-cases (lookup k d)) [
    | inl e ↦ rw (e, modify) (ground arith)
    | inr (v, e) ↦ rw (e, modify) (lookup-insert k j (g v) d)
  ]

module _ {ℓ κ} {V : Type ℓ} {W : Type κ} where
  map_some_absorb :
      (f : V → W) (g : V → V) (o : Option V)
      → ((v : V) → f (g v) ≡ f v)
      → map_some f (map_some g o) ≡ map_some f o
  map_some_absorb f g none h = refl
  map_some_absorb f g (some v) h = ap some (h v)

  -- An update that a view does not see.
  pub get_field-modify :
      (f : V → W) (g : V → V) (k j : ℕ) (d : Dict V)
      → ((v : V) → f (g v) ≡ f v)
      → get_field f j (modify g k d) ≡ get_field f j d
  unfolding get_field
  get_field-modify f g k j d same = rw (lookup-modify g k j d) (elim (Bool-cases (j == k)) [
    | inl e ↦ rw (e, (==_iff j k).0 e) (map_some_absorb f g (lookup k d) same)
    | inr e ↦ rw e
  ])

  map_some_commute :
      (f : V → W) (g : V → V) (h : W → W) (o : Option V)
      → ((v : V) → f (g v) ≡ h (f v))
      → map_some f (map_some g o) ≡ map_some h (map_some f o)
  map_some_commute f g h none e = refl
  map_some_commute f g h (some v) e = ap some (e v)

  -- An update as a view sees it.
  pub get_field-modify_if :
      (f : V → W) (g : V → V) (h : W → W) (k j : ℕ) (d : Dict V)
      → ((v : V) → f (g v) ≡ h (f v))
      → get_field f j (modify g k d)
        ≡ (if j == k then map_some h (get_field f j d) else get_field f j d)
  unfolding get_field
  get_field-modify_if f g h k j d same = rw (lookup-modify g k j d) (elim (Bool-cases (j == k)) [
    | inl e ↦ rw (e, (==_iff j k).0 e) (map_some_commute f g h (lookup k d) same)
    | inr e ↦ rw e
  ])

pub ruleset dict_laws = (lookup-insert, lookup-erase, contains-insert, contains-erase)
