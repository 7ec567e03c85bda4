-- ===== src/Informers/Runs.antt =====
-- pkg/client/informers/externalversions/factory.go: how often the informers of a factory are run,
-- and which ones.
use talisman.Common.{
  String, ◌==◌, ◌≡◌, refl, inl, inr, Bool, true, false, ◌||◌, Bool-cases, Option, none, some,
  Option-cases, List, [], ◌∷◌, ◌++◌, lookup, insert, lookup-insert, eq_iff, arith, if◌then◌else◌,
}
use talisman.Kube.Machinery.{Machinery}
use talisman.Informers.{
  ByType, SharedInformerFactory, NewInformerFunc, is_started, start_each, start, informer_for,
}

abbrev pub to_list : {A : Type 0} → Option A → List A
to_list none = []
to_list (some a) = a ∷ []

abbrev pub is_some : {A : Type 0} → Option A → Bool
is_some none = false
is_some (some a) = true

-- The informers of a type among those that have been run, one for each time.
unfoldable pub runs_of : {I : Type 0} → String → ByType I → List I
runs_of t [] = []
runs_of t ((u, i) ∷ rest) = let more = runs_of t rest in if u == t then i ∷ more else more

runs_of-append :
    {I : Type 0} (t : String) (xs ys : ByType I)
    → runs_of t (xs ++ ys) ≡ runs_of t xs ++ runs_of t ys
unfolding runs_of
runs_of-append t [] ys = refl
runs_of-append t ((u, i) ∷ xs) ys = ground (arith, runs_of-append t xs ys)

-- The loop of `Start` marks what is registered, and runs just what was not marked before.
start_each-started :
    {I : Type 0} (t : String) (entries : ByType I) (m : ByType Bool)
    → is_started t (start_each entries m).1 ≡ (is_started t m || is_some (lookup t entries))
unfolding start_each
start_each-started t [] m = ground arith
start_each-started t ((u, i) ∷ rest) m = elim (Bool-cases (is_started u m)) [
  | inl was ↦ rw was (ground (arith, was, eq_iff u t, start_each-started t rest m))
  | inr new ↦ rw new (
      ground (
        arith,
        new,
        eq_iff u t,
        lookup-insert u t true m,
        start_each-started t rest (insert u true m),
      ))
]

start_each-runs :
    {I : Type 0} (t : String) (entries : ByType I) (m : ByType Bool)
    → runs_of t (start_each entries m).0
      ≡ (if is_started t m then [] else to_list (lookup t entries))
unfolding start_each runs_of
start_each-runs t [] m = ground arith
start_each-runs t ((u, i) ∷ rest) m = elim (Bool-cases (is_started u m)) [
  | inl was ↦ rw was (ground (arith, was, eq_iff u t, start_each-runs t rest m))
  | inr new ↦ rw new (
      ground (
        arith,
        new,
        eq_iff u t,
        lookup-insert u t true m,
        start_each-runs t rest (insert u true m),
      ))
]

-- A type that is registered anew has not been run.
insert_once :
    {I : Type 0} (t u : String) (i : I) (m : ByType I) (marks : ByType Bool) (runs : List I)
    → lookup u m ≡ none
    → runs ≡ (if is_started t marks then to_list (lookup t m) else [])
    → (is_started t marks ≡ true → is_some (lookup t m) ≡ true)
    → (runs ≡ (if is_started t marks then to_list (lookup t (insert u i m)) else []))
      × (is_started t marks ≡ true → is_some (lookup t (insert u i m)) ≡ true)
insert_once t u i m marks runs missing once known = (
  ground (arith, missing, once, known, eq_iff u t, lookup-insert u t i m),
  λ was. ground (arith, missing, known was, eq_iff u t, lookup-insert u t i m),
)

module _ (M : Machinery) (Client : Type 0) where
  open M use {World, SharedIndexInformer}

  -- The calls of the threads that share a factory, in the order in which they get its lock.
  pub data FactoryCall : Type 0 where
    request : String → NewInformerFunc M Client → FactoryCall
    start_all : FactoryCall

  -- The factory, the process, and what has been run so far.
  pub record Process : Type 0 where
    pub factory : SharedInformerFactory M Client
    pub world : World
    pub ran : ByType SharedIndexInformer

  unfoldable pub step : FactoryCall → Process → Process
  unfolding start informer_for
  step (request t new_func) p =
      let (_, (f, w)) = informer_for M Client t new_func (p.factory, p.world) in
      record p { factory = f; world = w }
  step start_all p =
      let (ran, f) = start M Client p.factory in record p { factory = f; ran = p.ran ++ ran }

  unfoldable pub run_calls : List FactoryCall → Process → Process
  unfolding step
  run_calls [] p = p
  run_calls (c ∷ cs) p = run_calls cs (step c p)

  abbrev pub registered : String → Process → Option SharedIndexInformer
  registered t p = lookup t p.factory.informers

  abbrev pub started : String → Process → Bool
  started t p = is_started t p.factory.started_informers

  -- What has been run of a type is the one informer that is registered for it, once, if it counts as
  -- started, and nothing otherwise.
  pub record RunOnce (t : String) (p : Process) : Type 0 where
    pub once : runs_of t p.ran ≡ (if started t p then to_list (registered t p) else [])
    pub known : started t p ≡ true → is_some (registered t p) ≡ true

  start_all-RunOnce : (t : String) (p : Process) → RunOnce t p → RunOnce t (step start_all p)
  unfolding step start
  start_all-RunOnce t p h =
      let f = p.factory in
      let runs = start_each-runs t f.informers f.started_informers in
      let marks = start_each-started t f.informers f.started_informers in
      elim (Bool-cases (started t p)) [
        | inl was ↦ record {
          once = ground (
            arith,
            was,
            h.once,
            runs,
            marks,
            runs_of-append t p.ran (start_each f.informers f.started_informers).0,
          );
          known = λ _. h.known was;
        }
        | inr new ↦ record {
          once = ground (
            arith,
            new,
            h.once,
            runs,
            marks,
            runs_of-append t p.ran (start_each f.informers f.started_informers).0,
          );
          known = ground (arith, new, marks);
        }
      ]

  request-RunOnce :
      (t u : String) (new_func : NewInformerFunc M Client) (p : Process)
      → RunOnce t p
      → RunOnce t (step (request u new_func) p)
  unfolding step informer_for
  request-RunOnce t u new_func p h = elim (Option-cases (registered u p)) [
    | inl missing ↦ rw missing (
        let (once, known) =
          insert_once t u _ p.factory.informers p.factory.started_informers (runs_of t p.ran)
            missing h.once h.known in
        record { once = once; known = known })
    | inr (i, there) ↦ rw there h
  ]

  step-RunOnce : (t : String) (c : FactoryCall) (p : Process) → RunOnce t p → RunOnce t (step c p)
  step-RunOnce t (request u new_func) p h = request-RunOnce t u new_func p h
  step-RunOnce t start_all p h = start_all-RunOnce t p h

  run_calls-from :
      (t : String) (cs : List FactoryCall) (p : Process) → RunOnce t p → RunOnce t (run_calls cs p)
  unfolding run_calls
  run_calls-from t [] p h = h
  run_calls-from t (c ∷ cs) p h = run_calls-from t cs (step c p) (step-RunOnce t c p h)

  -- A factory of which no informer has been requested yet.
  abbrev pub IsFresh : SharedInformerFactory M Client → Type 0
  IsFresh f = (f.informers ≡ []) × (f.started_informers ≡ [])

  -- Whatever threads call of a fresh factory, in any order and as often as they like: of each type what
  -- has been run is nothing, or, once and no more, the one informer that is registered for it.
  pub run_calls-RunOnce :
      (f : SharedInformerFactory M Client) (w : World) (cs : List FactoryCall) (t : String)
      → IsFresh f
      → RunOnce t (run_calls cs (record { factory = f; world = w; ran = [] }))
  unfolding runs_of
  run_calls-RunOnce f w cs t (none_there, none_started) =
      run_calls-from t cs (record { factory = f; world = w; ran = [] })
        (record { once = rw none_started refl; known = rw none_started λ h. cc })

  -- After `Start` every informer that is registered has been run, and exactly once; a second `Start`
  -- right after it runs nothing.
  pub start_all-AllRun :
      (f : SharedInformerFactory M Client) (w : World) (cs : List FactoryCall) (t : String)
      → IsFresh f
      → let p = step start_all (run_calls cs (record { factory = f; world = w; ran = [] })) in
        (runs_of t p.ran ≡ to_list (registered t p)) × (runs_of t (start M Client p.factory).0 ≡ [])
  unfolding start step
  start_all-AllRun f w cs t fresh =
      let p = run_calls cs (record { factory = f; world = w; ran = [] }) in
      let h = start_all-RunOnce t p (run_calls-RunOnce f w cs t fresh) in
      let marks = start_each-started t p.factory.informers p.factory.started_informers in
      (
        ground (arith, h.once, h.known, marks),
        rw (start_each-runs t p.factory.informers _) (ground (arith, marks)),
      )
