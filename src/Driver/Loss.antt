-- ===== src/Driver/Loss.antt =====
-- Objects of python/nano_ray/driver.py that are evicted and come back: `evict_object`, then
-- `get_object`.
use nano_ray.Prelude.{
  ℕ, suc, ◌+◌, ◌≡◌, refl, sym, ◌∙◌, ap, subst, List, [], ◌∷◌, some, true, false, arith, elem, inl,
  inr, Bool-cases, Option, Option-cases, get_or_else,
}
use nano_ray.Prelude.Maybe.{>>=-eq-some}
use nano_ray.Prelude.Dict.{lookup}
use mathlib.Core.Option.{some-injective}
use nano_ray.Answers.{done, ◌>>=◌}
use nano_ray.Values.{Value, Items, Fields, Func}
use nano_ray.ObjectStore
use nano_ray.ObjectStore.Laws.{content}
use nano_ray.Ownership.{get_producer_task, get_task_lineage}
use nano_ray.Ownership.Lookup.{register_task_lem}
use nano_ray.Dag.{extract_dependencies}
use nano_ray.Worker.{Platform}
use nano_ray.Driver.{Runtime, or_none, evict_object, submit_task, enter_task, flush_ready_tasks}
use nano_ray.Driver.Meaning.{Extends, Denotes-Extends, Denotes-unique}
use nano_ray.Driver.Soundness.{Sound}
use nano_ray.Driver.Preserved.{evict-Sound}
use nano_ray.Driver.Entry.{registered-Extends}
use nano_ray.Driver.Recovery.{Wait, checked, get_object}
use nano_ray.Driver.Recoverable.{Ready, Steps-IsLater, Recoverable, stored, rebuilt}
use nano_ray.Driver.Results.{Grows, Extends-trans, flush-Grows}
use nano_ray.Driver.Missing.{IsWait}
use nano_ray.Driver.Get.{get_object-total}

module _ (p : Platform) where
  -- One object after another is evicted.
  unfoldable pub evict_all : List ℕ → Runtime p → Runtime p
  evict_all [] r = r
  evict_all (o ∷ os) r = evict_all os (evict_object p o r).1

  -- With no task pending, an eviction leaves the runtime as good as it was.
  evict-Ready :
      (o : ℕ) (r : Runtime p)
      → r.scheduler.pending_tasks ≡ []
      → Ready p r
      → Ready p (evict_object p o r).1
  unfolding evict_object lookup
  evict-Ready o r idle h = record {
    sound = evict-Sound p o r h.sound;
    settled = record {
      scheduled = record {
        indexed = h.settled.scheduled.indexed;
        unique = h.settled.scheduled.unique;
        covered = record {
          pending_covered = λ t q e d x u. absurd (ground (arith, rw idle at e));
          ready_covered = rw h.settled.sent_all tt;
        };
        awaits = λ t q e d x. absurd (ground (arith, rw idle at e));
      };
      sent_all = h.settled.sent_all;
    };
    queue_open = h.queue_open;
  }

  -- `r'` is `r` without some objects.
  pub record IsLoss (r r' : Runtime p) : Type 0 where
    pub ready : Ready p r'
    pub table : r'.ownership ≡ r.ownership

  pub evict_all-IsLoss :
      (os : List ℕ) (r : Runtime p)
      → r.scheduler.pending_tasks ≡ []
      → Ready p r
      → IsLoss r (evict_all os r)
  unfolding evict_all evict_object
  evict_all-IsLoss [] r idle h = record { ready = h; table = refl }
  evict_all-IsLoss (o ∷ os) r idle h =
      let later = evict_all-IsLoss os (evict_object p o r).1 idle (evict-Ready o r idle h) in
      record { ready = later.ready; table = later.table }

  pub IsLoss-Grows : (r r' : Runtime p) → IsLoss r r' → Grows p r r'
  IsLoss-Grows r r' loss = record {
    producers = λ x t a. ap (get_producer_task x) loss.table ∙ a;
    lineages = λ t l a. ap (get_task_lineage t) loss.table ∙ a;
  }

  -- What `n` nested calls rebuild from lineage alone, the whole store being lost.
  abbrev pub IsTraced : Runtime p → ℕ → ℕ → Type 0
  IsTraced r n o = Recoverable p (record r { object_store = ObjectStore.init }) n o

  pub IsTraced-later :
      (r r' : Runtime p) {n o : ℕ}
      → Extends p r.ownership r'.ownership
      → IsTraced r n o
      → Recoverable p r' n o
  unfolding ObjectStore.init ObjectStore.contains nano_ray.Prelude.Dict.contains lookup
  IsTraced-later r r' ext (stored there) = absurd (ground arith)
  IsTraced-later r r' ext (rebuilt t bytes func args kwargs prod lin loads deps) =
      rebuilt t bytes func args kwargs (ext.producers _ _ prod) (ext.lineages _ _ lin) loads
        (λ d h. IsTraced-later r r' ext (deps d h))

  or_none_back : (os : List ℕ) → get_or_else (or_none os) [] ≡ os
  or_none_back [] = refl
  or_none_back (o ∷ os) = refl

  enter_task-IsTraced :
      (n : ℕ) (func : Func) (args : Items) (kwargs : Fields) (r : Runtime p)
      → Sound p r
      → ((d : ℕ) → elem d (extract_dependencies args kwargs) ≡ true → IsTraced r n d)
      → IsTraced (enter_task p func args kwargs r).1 (suc n) (enter_task p func args kwargs r).0
  unfolding enter_task
  enter_task-IsTraced n func args kwargs r h deps =
      let os = extract_dependencies args kwargs in
      let bytes = p.dumps_task func args kwargs in
      let (status, result, producer, lineage) =
        register_task_lem r.next_id (r.next_id + 1) p.getpid (p.qualname func) bytes (or_none os)
          r.ownership in
      rebuilt r.next_id bytes func args kwargs producer
        (lineage ∙ ap (λ x. some (bytes, x)) (or_none_back os))
        (p.loads-dumps_task func args kwargs)
        (λ d e. IsTraced-later r _ (registered-Extends p func args kwargs r h) (deps d e))

  -- A task whose references can all be rebuilt from lineage gives an object that can, by one more
  -- nested call.
  pub submit_task-IsTraced :
      (n : ℕ) (func : Func) (args : Items) (kwargs : Fields) (o : ℕ) (r r' : Runtime p)
      → Sound p r
      → ((d : ℕ) → elem d (extract_dependencies args kwargs) ≡ true → IsTraced r n d)
      → submit_task p func args kwargs r ≡ some (o, r')
      → IsTraced r' (suc n) o
  unfolding submit_task
  submit_task-IsTraced n func args kwargs o r r' h deps e =
      let (new_id, entered) = enter_task p func args kwargs r in
      let (s, flush, same) = >>=-eq-some (flush_ready_tasks p entered) _ e in
      let traced : IsTraced s (suc n) new_id =
        IsTraced-later entered _ (flush-Grows p entered s flush)
          (enter_task-IsTraced n func args kwargs r h deps) in
      subst (λ (x : ℕ × Runtime p). IsTraced x.1 (suc n) x.0) (some-injective _ _ same) traced

  -- Objects are evicted while no task is pending, and one of them, or any other whose value was
  -- there and whose lineage fits in the limit of nested calls, is asked for: the `get` comes back
  -- with the value that was there, or raises it if it is a failure.
  pub evict-get_object :
      (wait : Wait p)
      → IsWait p wait
      → (n o : ℕ) (os : List ℕ) (timeout : Option ℕ) (v : Value) (r : Runtime p) → Ready p r
      → r.scheduler.pending_tasks ≡ []
      → IsTraced r n o
      → content r.object_store o ≡ some v
      → (r' : Runtime p) × (get_object p wait (suc n) o timeout (evict_all os r)
          ≡ (checked v >>= λ x. done (x, r')))
  evict-get_object wait w n o os timeout v r ready idle traced found =
      let lost = evict_all-IsLoss os r idle ready in
      let same : Grows p r (evict_all os r) = IsLoss-Grows r (evict_all os r) lost in
      let (r', v', e, (run, has), meaning) =
        get_object-total p wait w n o timeout (evict_all os r) lost.ready
          (IsTraced-later r _ same traced) in
      let later = Steps-IsLater p lost.ready run in
      let value : v' ≡ v =
        Denotes-unique p meaning
          (Denotes-Extends p (Extends-trans p same later.grows) (ready.sound.stored o v found)) in
      (r', e ∙ ap (λ x. checked x >>= λ y. done (y, r')) value)
