-- ===== src/Api/Wait.antt =====
-- What `wait` of python/nano_ray/api.py returns.
use mathlib.Core.List.Perm
use mathlib.Core.List.{Perm, perm_middle}
use nano_ray.Prelude.{
  ℕ, ◌+◌, ◌≤◌, ◌≡◌, refl, List, [], ◌∷◌, ◌++◌, append_assoc, Bool, arith, leb, if◌then◌else◌,
  length, length-append, Bool-cases, inl, inr,
}
use nano_ray.Api.{pass, wait_loop, wait}

pass-perm :
    (contains : ℕ → Bool) (refs : List ℕ)
    → Perm ((pass contains refs).0 ++ (pass contains refs).1) refs
unfolding pass
pass-perm contains [] = Perm.rfl
pass-perm contains (ref ∷ refs) = elim (Bool-cases (contains ref)) [
  | inl e ↦ rw e (Perm.cons ref (pass-perm contains refs))
  | inr e ↦ rw e (
      Perm.trans (perm_middle (pass contains refs).0 (pass contains refs).1)
        (Perm.cons ref (pass-perm contains refs)))
]

wait_loop-perm :
    (passes : List (ℕ → Bool)) (n : ℕ) (ready remaining : List ℕ)
    → Perm
        ((wait_loop passes n ready remaining).0 ++ (wait_loop passes n ready remaining).1)
        (ready ++ remaining)
unfolding wait_loop
wait_loop-perm [] n ready remaining = Perm.rfl
wait_loop-perm (contains ∷ passes) n ready remaining = elim (Bool-cases (leb n (length ready))) [
  | inl e ↦ rw e Perm.rfl
  | inr e ↦
      let found = (pass contains remaining).0 in
      let rest = (pass contains remaining).1 in
      rw e (
        Perm.trans (wait_loop-perm passes n (ready ++ found) rest) (
          rw (append_assoc ready found rest)
            (Perm.append_left ready (pass-perm contains remaining))))
]

-- Every reference of the call is in one of the two lists that `wait` returns, as often as it was
-- passed in.
pub wait-perm :
    (passes : List (ℕ → Bool)) (refs : List ℕ) (n : ℕ)
    → Perm ((wait passes refs n).0 ++ (wait passes refs n).1) refs
unfolding wait
wait-perm passes refs n = wait_loop-perm passes n [] refs

-- How many of the references are found.
unfoldable pub count : (ℕ → Bool) → List ℕ → ℕ
count contains [] = 0
count contains (ref ∷ refs) =
    let rest = count contains refs in if contains ref then rest + 1 else rest

length-pass :
    (contains : ℕ → Bool) (refs : List ℕ) → length (pass contains refs).0 ≡ count contains refs
unfolding pass count
length-pass contains [] = refl
length-pass contains (ref ∷ refs) = ground (arith, length-pass contains refs)

count-pass :
    (contains other : ℕ → Bool) (refs : List ℕ)
    → count contains refs ≤ length (pass other refs).0 + count contains (pass other refs).1
unfolding pass count
count-pass contains other [] = ground arith
count-pass contains other (ref ∷ refs) = ground (arith, count-pass contains other refs)

length-wait_loop :
    (passes : List (ℕ → Bool)) (n : ℕ) (ready remaining : List ℕ)
    → length ready ≤ length (wait_loop passes n ready remaining).0
unfolding wait_loop
length-wait_loop [] n ready remaining = ground arith
length-wait_loop (contains ∷ passes) n ready remaining = ground (
  arith,
  length-append ready (pass contains remaining).0,
  length-wait_loop passes n (ready ++ (pass contains remaining).0) (pass contains remaining).1,
)

wait_loop_enough :
    (before after : List (ℕ → Bool)) (contains : ℕ → Bool) (n : ℕ) (ready remaining : List ℕ)
    → n ≤ length ready + count contains remaining
    → n ≤ length (wait_loop (before ++ contains ∷ after) n ready remaining).0
unfolding wait_loop
wait_loop_enough [] after contains n ready remaining h = ground (
  arith,
  length-append ready (pass contains remaining).0,
  length-pass contains remaining,
  length-wait_loop after n (ready ++ (pass contains remaining).0) (pass contains remaining).1,
)
wait_loop_enough (other ∷ before) after contains n ready remaining h = ground (
  arith,
  wait_loop_enough before after contains n (ready ++ (pass other remaining).0)
      (pass other remaining).1
      (ground
        (arith, length-append ready (pass other remaining).0, count-pass contains other remaining)),
)

-- If `num_returns` of the references are in the store at one of the passes of `wait`, it returns at
-- least that many as ready.
pub wait_enough :
    (before after : List (ℕ → Bool)) (contains : ℕ → Bool) (refs : List ℕ) (n : ℕ)
    → n ≤ count contains refs
    → n ≤ length (wait (before ++ contains ∷ after) refs n).0
unfolding wait
wait_enough before after contains refs n h =
    wait_loop_enough before after contains n [] refs (ground arith)
