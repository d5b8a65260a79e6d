-- ===== src/Prelude/Bags.antt =====
-- Tests on the elements of a list and its length, whatever its order.
use mathlib.Core.Path.{◌≡◌, refl, ap, ◌∙◌}
use mathlib.Core.Bool.{Bool, false, ◌||◌, Bool-set}
use mathlib.Core.Logic.{∥∥₁_elim}
use mathlib.Core.List.{List, [], ◌∷◌, ◌++◌, map, Perm, Permᴰ}
use Prim.Native.Nat.{suc}
use native.Mathlib.Nat.{ℕ_set}
use nano_ray.Prelude.Lists.{length}
use native.Mathlib.Omega.{arith}

module _ {ℓ} {A : Type ℓ} where
  unfoldable pub any : List A → (A → Bool) → Bool
  any [] f = false
  any (x ∷ xs) f = f x || any xs f

  pub any-append : (xs ys : List A) (f : A → Bool) → any (xs ++ ys) f ≡ (any xs f || any ys f)
  unfolding any
  any-append [] ys f = refl
  any-append (x ∷ xs) ys f = ground (arith, any-append xs ys f)

  any-Permᴰ : (f : A → Bool) {xs ys : List A} → Permᴰ xs ys → any xs f ≡ any ys f
  unfolding any
  any-Permᴰ f Permᴰ.nil = refl
  any-Permᴰ f (Permᴰ.cons {l₁ = xs} {l₂ = ys} e p) = ground (arith, any-Permᴰ f p, ap f e)
  any-Permᴰ f (Permᴰ.swap {l = xs} e e') = ground (arith, ap f e, ap f e')
  any-Permᴰ f (Permᴰ.trans p q) = any-Permᴰ f p ∙ any-Permᴰ f q

  pub any-Perm : (f : A → Bool) {xs ys : List A} → Perm xs ys → any xs f ≡ any ys f
  any-Perm f {xs} {ys} p = ∥∥₁_elim p (Bool-set (any xs f) (any ys f)) (any-Permᴰ f)

  length-Permᴰ : {xs ys : List A} → Permᴰ xs ys → length xs ≡ length ys
  length-Permᴰ Permᴰ.nil = refl
  length-Permᴰ (Permᴰ.cons e p) = ap suc (length-Permᴰ p)
  length-Permᴰ (Permᴰ.swap e e') = refl
  length-Permᴰ (Permᴰ.trans p q) = length-Permᴰ p ∙ length-Permᴰ q

  pub length-Perm : {xs ys : List A} → Perm xs ys → length xs ≡ length ys
  length-Perm {xs} {ys} p = ∥∥₁_elim p (ℕ_set (length xs) (length ys)) length-Permᴰ

pub length-map {ℓ κ} :
    {A : Type ℓ} {B : Type κ} (f : A → B) (xs : List A) → length (map f xs) ≡ length xs
length-map f [] = refl
length-map f (x ∷ xs) = ap suc (length-map f xs)
