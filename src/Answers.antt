-- ===== src/Answers.antt =====
-- What a call of the library (python/nano_ray/driver.py, python/nano_ray/api.py) comes to: it returns,
-- raises an error, or waits without end.
use Prim.Native.String.{String}
use nano_ray.Prelude.{ℕ, ◌≡◌, refl, ap, Option, none, some, arith}

pub data Failure : Type 0 where
  -- `RuntimeError: nano-ray is not initialized`
  not_initialized : Failure
  -- `RuntimeError: nano-ray is already initialized`
  already_initialized : Failure
  -- `RuntimeError: Cannot reconstruct object ...`
  no_lineage : (object_id : ℕ) → Failure
  -- `RuntimeError: Task ... failed with error`
  task_raised : (task_id : ℕ) (error_msg : String) → Failure
  -- `TimeoutError`
  timed_out : (object_id : ℕ) → Failure
  -- Python's limit on nested calls
  recursion_error : Failure
  other_error : (traceback : String) → Failure

pub data Answer (A : Type 0) : Type 0 where
  done : A → Answer A
  failed : Failure → Answer A
  blocked : Answer A

infixl 5 ◌>>=◌
abbrev pub ◌>>=◌ : {A B : Type 0} → Answer A → (A → Answer B) → Answer B
done a >>= f = f a
failed e >>= f = failed e
blocked >>= f = blocked

abbrev pub or_blocked : {A : Type 0} → Option A → Answer A
or_blocked none = blocked
or_blocked (some a) = done a

abbrev pub or_failed : {A : Type 0} → Failure → Option A → Answer A
or_failed e none = failed e
or_failed e (some a) = done a

-- The value that a chain of calls went through, if it returns.
pub >>=-eq-done :
    {A B : Type 0} (m : Answer A) (f : A → Answer B) {b : B}
    → (m >>= f) ≡ done b
    → (a : A) × (m ≡ done a) × (f a ≡ done b)
>>=-eq-done (done a) f h = (a, refl, h)
>>=-eq-done (failed e) f h = absurd (ground arith)
>>=-eq-done blocked f h = absurd (ground arith)

abbrev pub value_or : {A : Type 0} → A → Answer A → A
value_or a (done b) = b
value_or a _ = a

pub done-injective : {A : Type 0} (a b : A) → done a ≡ done b → a ≡ b
done-injective a b h = ap (value_or a) h

pub or_blocked-eq-done : {A : Type 0} (m : Option A) (a : A) → or_blocked m ≡ done a → m ≡ some a
or_blocked-eq-done none a h = absurd (ground arith)
or_blocked-eq-done (some b) a h = ap some (done-injective b a h)

pub or_failed-eq-done :
    {A : Type 0} (e : Failure) (m : Option A) (a : A) → or_failed e m ≡ done a → m ≡ some a
or_failed-eq-done e none a h = absurd (ground arith)
or_failed-eq-done e (some b) a h = ap some (done-injective b a h)

pub >>=-assoc :
    {A B C : Type 0} (m : Answer A) (f : A → Answer B) (g : B → Answer C)
    → ((m >>= f) >>= g) ≡ (m >>= λ a. f a >>= g)
>>=-assoc (done a) f g = refl
>>=-assoc (failed e) f g = refl
>>=-assoc blocked f g = refl
