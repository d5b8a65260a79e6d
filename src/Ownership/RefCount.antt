-- ===== src/Ownership/RefCount.antt =====
-- Reference counts in python/nano_ray/_fallback/ownership.py.
use nano_ray.Prelude.{
  ℕ, suc, ◌+◌, ◌≡◌, ◌≢◌, refl, ◌∙◌, ap, List, [], ◌∷◌, Option, none, some, Bool, false, arith, ◌==◌,
  if◌then◌else◌, leb, Bool-cases, inl, inr, ==_iff,
}
use nano_ray.Prelude.Dict.{get_field, get_field-modify_if, get_field-insert}
use native.Mathlib.Nat.{add-zero}
use mathlib.Core.Option.{some-injective}
use Prim.Native.String.{String}
use nano_ray.Prelude.Int.{ℤ, pos, sub_ℕ, ◌+ℤ◌, ◌-ℤ◌, is_nonpos, +ℤ_one, -ℤ_one}
use nano_ray.Prelude.Maybe.{map_some}
use nano_ray.Ownership.{
  ObjectEntry, OwnershipTable, register_task, task_finished, task_failed, add_ref, remove_ref,
}
use nano_ray.Ownership.Calls.{Call, finishes, fails, adds, removes, step, run}

-- How often a history takes and gives back references to an object.
unfoldable pub added : ℕ → List Call → ℕ
added o [] = 0
added o (finishes t ∷ cs) = added o cs
added o (fails t m ∷ cs) = added o cs
added o (adds p ∷ cs) = let rest = added o cs in if o == p then suc rest else rest
added o (removes p ∷ cs) = added o cs

unfoldable pub removed : ℕ → List Call → ℕ
removed o [] = 0
removed o (finishes t ∷ cs) = removed o cs
removed o (fails t m ∷ cs) = removed o cs
removed o (adds p ∷ cs) = removed o cs
removed o (removes p ∷ cs) = let rest = removed o cs in if o == p then suc rest else rest

added_cons : (o : ℕ) (c : Call) (cs : List Call) → added o (c ∷ cs) ≡ added o (c ∷ []) + added o cs
unfolding added
added_cons o (finishes t) cs = omega arith
added_cons o (fails t m) cs = omega arith
added_cons o (adds p) cs = ground arith
added_cons o (removes p) cs = omega arith

removed_cons :
    (o : ℕ) (c : Call) (cs : List Call) → removed o (c ∷ cs) ≡ removed o (c ∷ []) + removed o cs
unfolding removed
removed_cons o (finishes t) cs = omega arith
removed_cons o (fails t m) cs = omega arith
removed_cons o (adds p) cs = omega arith
removed_cons o (removes p) cs = ground arith

-- Any call that changes the table.
pub data Event (Bytes : Type 0) : Type 0 where
  calls : (c : Call) → Event Bytes
  registers :
      (task_id object_id owner : ℕ) (desc : String) (args : Bytes) (deps : Option (List ℕ))
      → Event Bytes

module _ {Bytes : Type 0} where
  abbrev pub ref_count : ℕ → OwnershipTable Bytes → Option ℤ
  ref_count o table = get_field (λ e. e.ref_count) o table.objects

  ref_count-add_ref :
      (table : OwnershipTable Bytes) (p o a b : ℕ)
      → ref_count o table ≡ some (sub_ℕ a b)
      → ref_count o (add_ref p table) ≡ some (sub_ℕ (if o == p then a + 1 else a) b)
  unfolding add_ref
  ref_count-add_ref table p o a b h =
      rw
        (
          get_field-modify_if (λ (e : ObjectEntry). e.ref_count)
              (λ e. record e { ref_count = e.ref_count +ℤ pos 1 }) (λ n. n +ℤ pos 1) p o
              table.objects (λ e. refl),
          h,
        )
        (elim (Bool-cases (o == p)) [ inl e ↦ rw (e, +ℤ_one a b) | inr e ↦ rw e ])

  ref_count-remove_ref :
      (table : OwnershipTable Bytes) (p o a b : ℕ)
      → ref_count o table ≡ some (sub_ℕ a b)
      → ref_count o (remove_ref p table).1 ≡ some (sub_ℕ a (if o == p then b + 1 else b))
  unfolding remove_ref
  ref_count-remove_ref table p o a b h =
      rw
        (
          get_field-modify_if (λ (e : ObjectEntry). e.ref_count)
              (λ e. record e { ref_count = e.ref_count -ℤ pos 1 }) (λ n. n -ℤ pos 1) p o
              table.objects (λ e. refl),
          h,
        )
        (elim (Bool-cases (o == p)) [ inl e ↦ rw (e, -ℤ_one a b) | inr e ↦ rw e ])

  -- The count is what was added less what was removed; it may fall below 0.
  pub ref_count-run :
      (table : OwnershipTable Bytes) (cs : List Call) (o a b : ℕ)
      → ref_count o table ≡ some (sub_ℕ a b)
      → ref_count o (run table cs) ≡ some (sub_ℕ (a + added o cs) (b + removed o cs))
  unfolding run step added removed task_finished task_failed
  ref_count-run table [] o a b h = rw (add-zero a, add-zero b) h
  ref_count-run table (finishes t ∷ cs) o a b h = ref_count-run (task_finished t table) cs o a b h
  ref_count-run table (fails t m ∷ cs) o a b h = ref_count-run (task_failed t m table) cs o a b h
  ref_count-run table (adds p ∷ cs) o a b h =
      ref_count-run (add_ref p table) cs o (if o == p then a + 1 else a) b
        (ref_count-add_ref table p o a b h)
      ∙ ap (λ n. some (sub_ℕ n (b + removed o cs))) (ground arith)
  ref_count-run table (removes p ∷ cs) o a b h =
      ref_count-run (remove_ref p table).1 cs o a (if o == p then b + 1 else b)
        (ref_count-remove_ref table p o a b h)
      ∙ ap (λ n. some (sub_ℕ (a + added o cs) n)) (ground arith)

  remove_ref_report :
      (table : OwnershipTable Bytes) (o : ℕ) (n : ℤ)
      → ref_count o (remove_ref o table).1 ≡ some n
      → (remove_ref o table).0 ≡ is_nonpos n
  unfolding remove_ref get_field
  remove_ref_report table o n h = report _ n h
    where
      report :
          (x : Option ObjectEntry) (m : ℤ)
          → map_some (λ (e : ObjectEntry). e.ref_count) x ≡ some m
          → elim x as (λ y. Bool) [ none ↦ false | some e ↦ is_nonpos e.ref_count ] ≡ is_nonpos m
      report none m q = absurd (ground arith)
      report (some e) m q = ap is_nonpos (some-injective _ _ q)

  unfoldable pub on_event : OwnershipTable Bytes → Event Bytes → OwnershipTable Bytes
  on_event table (calls c) = step table c
  on_event table (registers t o owner desc args deps) = register_task t o owner desc args deps table

  unfoldable pub on_events : OwnershipTable Bytes → List (Event Bytes) → OwnershipTable Bytes
  unfolding on_event
  on_events table [] = table
  on_events table (e ∷ es) = on_events (on_event table e) es

  abbrev pub calls_of : List (Event Bytes) → List Call
  calls_of [] = []
  calls_of (calls c ∷ es) = c ∷ calls_of es
  calls_of (registers t o owner desc args deps ∷ es) = calls_of es

  -- The object is not registered again.
  abbrev pub IsOnce : ℕ → List (Event Bytes) → Type 0
  IsOnce o [] = Unit
  IsOnce o (calls c ∷ es) = IsOnce o es
  IsOnce o (registers t p owner desc args deps ∷ es) = (o ≢ p) × IsOnce o es

  ref_count-on_events :
      (table : OwnershipTable Bytes) (es : List (Event Bytes)) (o a b : ℕ)
      → IsOnce o es
      → ref_count o table ≡ some (sub_ℕ a b)
      → ref_count o (on_events table es)
        ≡ some (sub_ℕ (a + added o (calls_of es)) (b + removed o (calls_of es)))
  unfolding on_events added removed register_task run
  ref_count-on_events table [] o a b once h = rw (add-zero a, add-zero b) h
  ref_count-on_events table (calls c ∷ es) o a b once h =
      ref_count-on_events (step table c) es o (a + added o (c ∷ [])) (b + removed o (c ∷ [])) once
        (ref_count-run table (c ∷ []) o a b h)
      ∙ ap (λ n. some (sub_ℕ n (b + removed o (c ∷ []) + removed o (calls_of es))))
          (omega (arith, added_cons o c (calls_of es)))
      ∙ ap (λ n. some (sub_ℕ (a + added o (c ∷ calls_of es)) n))
          (omega (arith, removed_cons o c (calls_of es)))
  ref_count-on_events table (registers t p owner desc args deps ∷ es) o a b once h =
      let other : (o == p) ≡ false = ground (arith, once.0, ==_iff o p) in
      ref_count-on_events (register_task t p owner desc args deps table) es o a b once.1
        (rw (get_field-insert (λ (e : ObjectEntry). e.ref_count) p o _ table.objects, other) h)

  -- From its registration on, in any history of calls on the table that does not register it again,
  -- `remove_ref` says that an object can be collected exactly if all references, the first one and
  -- the added ones, are given back with this call.
  pub remove_ref-collects :
      (t o owner : ℕ) (desc : String) (args : Bytes) (deps : Option (List ℕ))
      (table : OwnershipTable Bytes) (es : List (Event Bytes))
      → IsOnce o es
      → (remove_ref o (on_events (register_task t o owner desc args deps table) es)).0
        ≡ leb (1 + added o (calls_of es)) (removed o (calls_of es) + 1)
  unfolding register_task remove_ref
  remove_ref-collects t o owner desc args deps table es once =
      let new : OwnershipTable Bytes = register_task t o owner desc args deps table in
      let first : ref_count o new ≡ some (sub_ℕ 1 0) = rw (
        get_field-insert (λ (e : ObjectEntry). e.ref_count) o o _ table.objects,
        (==_iff o o).1 refl,
      ) in
      remove_ref_report (on_events new es) o _ (
        ref_count-remove_ref (on_events new es) o o _ _
          (ref_count-on_events new es o 1 0 once first))
      ∙ ground arith
