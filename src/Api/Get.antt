-- ===== src/Api/Get.antt =====
-- `get` and `reconstruct` of python/nano_ray/api.py.
use nano_ray.Prelude.{
  ℕ, suc, ◌≡◌, refl, sym, ◌∙◌, ap, List, [], ◌∷◌, Option, none, some, false, arith, ◌⊎◌, inl, inr,
  Bool-cases, All, All-map,
}
use Prim.Native.String.{String}
use nano_ray.Answers.{or_blocked, >>=-assoc, Answer, done, failed, blocked, task_raised, ◌>>=◌}
use nano_ray.Values.{Value, py_none, obj, object_ref, list, tuple, dict, task_error, actor_state}
use nano_ray.ObjectStore
use nano_ray.Ownership.{get_producer_task}
use nano_ray.Worker.{Platform}
use nano_ray.Driver.{Runtime}
use nano_ray.Driver.Meaning.{AllDenote, Denotes-Extends}
use nano_ray.Driver.System.{Steps, here, Steps-trans}
use nano_ray.Driver.Recovery.{
  Wait, checked, reconstruct_object, await, auto_reconstruct, get_object,
}
use nano_ray.Driver.Recoverable.{Ready, Steps-IsLater, Recoverable, Recoverable-later}
use nano_ray.Driver.Missing.{Has, OnlySteps, IsWait}
use nano_ray.Driver.Rebuild.{reconstruct_object-Gives}
use nano_ray.Driver.Get.{get_object-total}
use nano_ray.Api.{get, get_all, get_list, reconstruct}

pub checked-cases :
    (v : Value)
    → (checked v ≡ done v) ⊎ ((t : ℕ) × (msg : String) × (checked v ≡ failed (task_raised t msg)))
checked-cases (task_error t msg) = inr (t, msg, refl)
checked-cases py_none = inl refl
checked-cases (obj n) = inl refl
checked-cases (object_ref o) = inl refl
checked-cases (list items) = inl refl
checked-cases (tuple items) = inl refl
checked-cases (dict fields) = inl refl
checked-cases (actor_state instance_value) = inl refl

module _ (p : Platform) where
  module _ (wait : Wait p) (w : IsWait p wait) where
    -- What a list of references comes to: the values of all of them, or the failure of a task.
    abbrev pub Comes : ℕ → List ℕ → Option ℕ → Runtime p → Type 0
    Comes limit refs timeout r =
        ((vs : List Value) × (r' : Runtime p) × (get_all p wait limit refs timeout r
            ≡ done (vs, r'))
          × Steps p r r'
          × AllDenote p r'.ownership refs vs)
        ⊎ ((t : ℕ) × (msg : String) × (get_all p wait limit refs timeout r
              ≡ failed (task_raised t msg)))

    get_all-total :
        (n : ℕ) (refs : List ℕ) (timeout : Option ℕ) (r : Runtime p)
        → Ready p r
        → All (Recoverable p r n) refs
        → Comes (suc n) refs timeout r
    unfolding get_all
    get_all-total n [] timeout r ready h = inl ([], r, refl, here, tt)
    get_all-total n (ref ∷ refs) timeout r ready h =
        let (r₁, v, e, (run, has), meaning) = get_object-total p wait w n ref timeout r ready h.0 in
        let later = Steps-IsLater p ready run in
        elim (checked-cases v) [
          | inr (t, msg, bad) ↦ inr (t, msg, rw (e, bad) refl)
          | inl good ↦
              elim (get_all-total n refs timeout r₁ later.ready
                (All-map refs (λ d. Recoverable-later p later) h.1)) [
                  | inr (t, msg, bad) ↦ inr (t, msg, rw (e, good) (rw bad refl))
                  | inl (vs, r₂, all, more, values) ↦ inl (
                    v ∷ vs,
                    r₂,
                    rw (e, good) (rw all refl),
                    Steps-trans p run more,
                    (Denotes-Extends p (Steps-IsLater p later.ready more).grows meaning, values),
                  )
                ]
        ]

    -- A `get` for a list of references that are stored or can be rebuilt within the limit of nested
    -- calls comes back, in a runtime at work, with any timeout: with the values of the references'
    -- tasks, in the order of the list, or with the failure of one of the tasks.
    pub get_list-total :
        (n : ℕ) (refs : List ℕ) (timeout : Option ℕ) (r : Runtime p)
        → Ready p r
        → All (Recoverable p r n) refs
        → ((vs : List Value) × (r' : Runtime p) × (get_list p wait (suc n) refs timeout (some r)
              ≡ done (vs, some r'))
            × Steps p r r'
            × AllDenote p r'.ownership refs vs)
          ⊎ ((t : ℕ) × (msg : String) × (get_list p wait (suc n) refs timeout (some r)
                ≡ failed (task_raised t msg)))
    unfolding get_list
    get_list-total n refs timeout r ready h = elim (get_all-total n refs timeout r ready h) [
      | inl (vs, r', e, run, values) ↦ inl (vs, r', rw e refl, run, values)
      | inr (t, msg, e) ↦ inr (t, msg, rw e refl)
    ]

  module _ (wait : Wait p) (only : OnlySteps p wait) where
    get_object_there :
        (limit o : ℕ) (timeout : Option ℕ) (r : Runtime p)
        → Has p o r
        → get_object p wait limit o timeout r ≡ (
            or_blocked (ObjectStore.get_now o r.object_store) >>= λ v.
            checked v >>= λ x. done (x, r))
    unfolding get_object auto_reconstruct await
    get_object_there limit o timeout r there =
        rw (get_object, auto_reconstruct, there, await, there) refl

    get_object_after :
        (limit ref : ℕ) (timeout : Option ℕ) (r : Runtime p)
        → Ready p r
        → ObjectStore.contains ref r.object_store ≡ false
        → (t : ℕ) → get_producer_task ref r.ownership ≡ some t
        → (x : Answer (Runtime p)) → reconstruct_object p wait limit ref r ≡ x
        → get_object p wait limit ref timeout r ≡ (x >>= get_object p wait limit ref none)
    unfolding get_object auto_reconstruct await
    get_object_after limit ref timeout r ready missing t prod (failed e) same =
        rw (get_object, auto_reconstruct, missing, prod, same) refl
    get_object_after limit ref timeout r ready missing t prod blocked same =
        rw (get_object, auto_reconstruct, missing, prod, same) refl
    get_object_after limit ref timeout r ready missing t prod (done r₁) same =
        let there = (reconstruct_object-Gives p wait only limit ref r r₁ ready same).1 in
        let left : get_object p wait limit ref timeout r ≡ (
            or_blocked (ObjectStore.get_now ref r₁.object_store) >>= λ v.
            checked v >>= λ x. done (x, r₁)) =
          rw (get_object, auto_reconstruct, missing, prod, same, await, there) refl in
        left ∙ sym (get_object_there limit ref none r₁ there)

    get_object-reconstruct :
        (limit ref : ℕ) (timeout : Option ℕ) (r : Runtime p)
        → Ready p r
        → (Has p ref r ⊎ ((t : ℕ) × (get_producer_task ref r.ownership ≡ some t)))
        → get_object p wait (suc limit) ref timeout r
          ≡ (reconstruct_object p wait (suc limit) ref r >>= get_object p wait (suc limit) ref none)
    unfolding reconstruct_object
    get_object-reconstruct limit ref timeout r ready known =
        elim (Bool-cases (ObjectStore.contains ref r.object_store)) [
          | inl there ↦
              get_object_there (suc limit) ref timeout r there
              ∙ rw (reconstruct_object, there) (sym (get_object_there (suc limit) ref none r there))
          | inr missing ↦ elim known [
            | inl there ↦ absurd (ground arith)
            | inr (t, prod) ↦
                get_object_after (suc limit) ref timeout r ready missing t prod
                  (reconstruct_object p wait (suc limit) ref r) refl
          ]
        ]

    -- In a runtime at work whose waits, where they end, take steps of the runtime and leave the object
    -- there, for an object that is stored or that a task has to produce, `reconstruct` and `get` are
    -- one, with any timeout and a limit of one nested call at least.
    pub reconstruct-get :
        (limit ref : ℕ) (timeout : Option ℕ) (r : Runtime p)
        → Ready p r
        → (Has p ref r ⊎ ((t : ℕ) × (get_producer_task ref r.ownership ≡ some t)))
        → reconstruct p wait (suc limit) ref (some r) ≡ get p wait (suc limit) ref timeout (some r)
    unfolding reconstruct get
    reconstruct-get limit ref timeout r ready known = sym (
        ap (λ m. m >>= λ (x : Value × Runtime p). done (x.0, some x.1))
          (get_object-reconstruct limit ref timeout r ready known)
        ∙ >>=-assoc (reconstruct_object p wait (suc limit) ref r) _ _)
