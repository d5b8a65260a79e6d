-- ===== src/Prelude/Lists.antt =====
-- Lists measured by native numbers, membership of numbers as a test, and Python's sets of numbers.
use Prim.Native.Nat.{ℕ, zero, suc, ◌+◌, ◌-◌, min}
use mathlib.Core.Path.{◌≡◌, refl, ◌∙◌}
use mathlib.Core.Bool.{Bool, true, false, ◌||◌, ◌&&◌}
use mathlib.Core.List.{List, [], ◌∷◌, ◌++◌}
use native.Mathlib.Omega.{arith}
use nano_ray.Prelude.Tests.{◌==◌, if◌then◌else◌}

module _ {ℓ} {A : Type ℓ} where
  abbrev pub length : List A → ℕ
  length [] = 0
  length (x ∷ xs) = suc (length xs)

  abbrev pub is_empty : List A → Bool
  is_empty [] = true
  is_empty (x ∷ xs) = false

  abbrev pub take : ℕ → List A → List A
  take zero xs = []
  take (suc n) [] = []
  take (suc n) (x ∷ xs) = x ∷ take n xs

  abbrev pub drop : ℕ → List A → List A
  drop zero xs = xs
  drop (suc n) [] = []
  drop (suc n) (x ∷ xs) = drop n xs

  pub length-append : (xs ys : List A) → length (xs ++ ys) ≡ length xs + length ys
  length-append [] ys = omega arith
  length-append (x ∷ xs) ys = omega (arith, length-append xs ys)

  pub length-take : (n : ℕ) (xs : List A) → length (take n xs) ≡ min n (length xs)
  length-take zero xs = omega arith
  length-take (suc n) [] = omega arith
  length-take (suc n) (x ∷ xs) = omega (arith, length-take n xs)

  pub length-drop : (n : ℕ) (xs : List A) → length (drop n xs) ≡ length xs - n
  length-drop zero xs = omega arith
  length-drop (suc n) [] = omega arith
  length-drop (suc n) (x ∷ xs) = omega (arith, length-drop n xs)

  pub is_empty-eq-true : (xs : List A) → is_empty xs ≡ true → xs ≡ []
  is_empty-eq-true [] h = refl
  is_empty-eq-true (x ∷ xs) h = cc

-- `x in xs` on a list of ids.
unfoldable pub elem : ℕ → List ℕ → Bool
elem x [] = false
elem x (y ∷ ys) = x == y || elem x ys

-- `s.discard(x)`.
unfoldable pub discard : ℕ → List ℕ → List ℕ
discard x [] = []
discard x (y ∷ ys) = let rest = discard x ys in if x == y then rest else y ∷ rest

-- `set(xs)`: each id once.
unfoldable pub set_of : List ℕ → List ℕ
unfolding discard
set_of [] = []
set_of (x ∷ xs) = x ∷ discard x (set_of xs)

pub elem-append : (x : ℕ) (ys zs : List ℕ) → elem x (ys ++ zs) ≡ (elem x ys || elem x zs)
unfolding elem
elem-append x [] zs = refl
elem-append x (y ∷ ys) zs = ground (arith, elem-append x ys zs)

pub elem-discard :
    (x y : ℕ) (ys : List ℕ) → elem x (discard y ys) ≡ (if x == y then false else elem x ys)
unfolding elem discard
elem-discard x y [] = ground arith
elem-discard x y (z ∷ zs) = ground (arith, elem-discard x y zs)

pub elem-set_of : (x : ℕ) (ys : List ℕ) → elem x (set_of ys) ≡ elem x ys
unfolding elem set_of
elem-set_of x [] = refl
elem-set_of x (y ∷ ys) = ground (arith, elem-set_of x ys, elem-discard x y (set_of ys))

pub discard_absent : (x : ℕ) (ys : List ℕ) → elem x ys ≡ false → discard x ys ≡ ys
unfolding elem discard
discard_absent x [] h = refl
discard_absent x (y ∷ ys) h = ground (arith, discard_absent x ys)

pub discard-discard : (x : ℕ) (ys : List ℕ) → discard x (discard x ys) ≡ discard x ys
unfolding discard
discard-discard x [] = refl
discard-discard x (y ∷ ys) = ground (arith, discard-discard x ys)

pub nil_of_elem : (ys : List ℕ) → ((x : ℕ) → elem x ys ≡ false) → ys ≡ []
unfolding elem
nil_of_elem [] h = refl
nil_of_elem (y ∷ ys) h = absurd (ground (arith, h y))

-- `set(xs) <= set(ys)`
unfoldable pub subset : List ℕ → List ℕ → Bool
unfolding elem
subset [] ys = true
subset (x ∷ xs) ys = elem x ys && subset xs ys

unfoldable pub discard_all : List ℕ → List ℕ → List ℕ
unfolding discard
discard_all [] ys = ys
discard_all (x ∷ xs) ys = discard_all xs (discard x ys)

subset-discard_cons : (x : ℕ) (ys zs : List ℕ) → subset (discard x ys) zs ≡ subset ys (x ∷ zs)
unfolding subset discard
subset-discard_cons x [] zs = refl
subset-discard_cons x (y ∷ ys) zs = ground (arith, subset-discard_cons x ys zs)

subset-discard :
    (x : ℕ) (ys zs : List ℕ) → elem x zs ≡ true → subset (discard x ys) zs ≡ subset ys zs
unfolding subset discard
subset-discard x [] zs h = refl
subset-discard x (y ∷ ys) zs h = ground (arith, subset-discard x ys zs h)

pub subset-set_of : (xs ys : List ℕ) → subset (set_of xs) ys ≡ subset xs ys
unfolding subset set_of
subset-set_of [] ys = refl
subset-set_of (x ∷ xs) ys = ground (arith, subset-set_of xs ys, subset-discard x (set_of xs) ys)

-- Striking the elements of `xs` off leaves nothing exactly if `xs` has them all.
pub is_empty-discard_all : (xs ys : List ℕ) → is_empty (discard_all xs ys) ≡ subset ys xs
unfolding discard_all subset
is_empty-discard_all [] [] = refl
is_empty-discard_all [] (y ∷ ys) = refl
is_empty-discard_all (x ∷ xs) ys =
    is_empty-discard_all xs (discard x ys) ∙ subset-discard_cons x ys xs

pub discard_all-nil : (xs : List ℕ) → discard_all xs [] ≡ []
unfolding discard_all discard
discard_all-nil [] = refl
discard_all-nil (x ∷ xs) = discard_all-nil xs
