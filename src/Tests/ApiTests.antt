-- ===== src/Tests/ApiTests.antt =====
-- `wait` of python/nano_ray/api.py over two passes.
use mathlib.Core.List.{Perm}
use nano_ray.Prelude.{ℕ, ◌≤◌, ◌≡◌, refl, List, [], ◌∷◌, ◌++◌, Bool, ◌==◌, leb, length, arith}
use nano_ray.Api.{wait}
use nano_ray.Api.Wait.{count, wait-perm, wait_enough}

-- Object 3 is there at first, then all objects from 3 on.
abbrev passes : List (ℕ → Bool)
passes = (λ o. o == 3) ∷ (λ o. leb 3 o) ∷ []

waited : wait passes (1 ∷ 3 ∷ 5 ∷ []) 2 ≡ (3 ∷ 5 ∷ [], 1 ∷ [])
unfolding wait
waited = refl

wait-perm_example :
    Perm ((wait passes (1 ∷ 3 ∷ 5 ∷ []) 2).0 ++ (wait passes (1 ∷ 3 ∷ 5 ∷ []) 2).1) (1 ∷ 3 ∷ 5 ∷ [])
wait-perm_example = wait-perm passes (1 ∷ 3 ∷ 5 ∷ []) 2

two_there : 2 ≤ count (λ o. leb 3 o) (1 ∷ 3 ∷ 5 ∷ [])
unfolding count
two_there = ground arith

wait_enough_example :
    2 ≤ length (wait (((λ o. o == 3) ∷ []) ++ (λ o. leb 3 o) ∷ []) (1 ∷ 3 ∷ 5 ∷ []) 2).0
wait_enough_example =
    wait_enough ((λ o. o == 3) ∷ []) [] (λ o. leb 3 o) (1 ∷ 3 ∷ 5 ∷ []) 2 two_there
