-- ===== src/Informers/Sharing.antt =====
-- pkg/client/informers/externalversions/factory.go: the informers that the users of a type get, and
-- the caches that are waited for.
use talisman.Common.{
  String, ◌==◌, ◌≡◌, refl, ◌∙◌, inl, inr, Bool, true, false, Option, none, some, Bool-cases, List,
  [], ◌∷◌, lookup, insert, lookup-insert, eq_iff, arith,
}
use talisman.Kube.Machinery.{Machinery}
use talisman.Informers.{
  ByType, SharedInformerFactory, NewInformerFunc, is_started, collect_started, sync_each, start,
  wait_for_cache_sync, informer_for, existing_or_new,
}
use talisman.Informers.Runs.{
  FactoryCall, request, start_all, Process, step, run_calls, registered, started, IsFresh,
}

-- No key is twice in a map.
abbrev pub IsMap : {A : Type 0} → ByType A → Type 0
IsMap [] = Unit
IsMap ((t, a) ∷ rest) = (lookup t rest ≡ none) × IsMap rest

pub IsMap-insert : {A : Type 0} (t : String) (a : A) (m : ByType A) → IsMap m → IsMap (insert t a m)
IsMap-insert t a [] h = (refl, tt)
IsMap-insert t a ((u, b) ∷ m) (out, h) = elim (Bool-cases (u == t)) [
  | inl hit ↦ rw hit (ground (arith, hit, out, eq_iff u t), h)
  | inr miss ↦ rw miss (
    ground (arith, miss, out, eq_iff t u, lookup-insert t u a m, eq_iff u t),
    IsMap-insert t a m h,
  )
]

collect_started-IsMap :
    {I : Type 0} (xs : ByType I) (marks : ByType Bool) (acc : ByType I)
    → IsMap acc
    → IsMap (collect_started xs marks acc)
unfolding collect_started
collect_started-IsMap [] marks acc h = h
collect_started-IsMap ((t, i) ∷ xs) marks acc h = elim (Bool-cases (is_started t marks)) [
  | inl on ↦ rw on (collect_started-IsMap xs marks (insert t i acc) (IsMap-insert t i acc h))
  | inr off ↦ rw off (collect_started-IsMap xs marks acc h)
]

abbrev or_else : {A : Type 0} → Option A → Option A → Option A
or_else none b = b
or_else (some a) b = some a

abbrev pub keep_if : {A : Type 0} → Bool → Option A → Option A
keep_if true o = o
keep_if false o = none

lookup-collect_started :
    {I : Type 0} (t : String) (xs : ByType I) (marks : ByType Bool) (acc : ByType I)
    → IsMap xs
    → lookup t (collect_started xs marks acc)
      ≡ or_else (keep_if (is_started t marks) (lookup t xs)) (lookup t acc)
unfolding collect_started
lookup-collect_started t [] marks acc h = ground arith
lookup-collect_started t ((u, i) ∷ xs) marks acc (out, h) = elim (Bool-cases (is_started u marks)) [
  | inl on ↦ rw on (
      ground (
        arith,
        on,
        out,
        eq_iff u t,
        lookup-insert u t i acc,
        lookup-collect_started t xs marks (insert u i acc) h,
      ))
  | inr off ↦ rw off (ground (arith, off, out, eq_iff u t, lookup-collect_started t xs marks acc h))
]

abbrev pub map_option : {A B : Type 0} → (A → B) → Option A → Option B
map_option f none = none
map_option f (some a) = some (f a)

lookup-sync_each :
    {I : Type 0} (wait : I → Bool) (t : String) (xs : ByType I) (acc : ByType Bool)
    → IsMap xs
    → lookup t (sync_each wait xs acc) ≡ or_else (map_option wait (lookup t xs)) (lookup t acc)
unfolding sync_each
lookup-sync_each wait t [] acc h = refl
lookup-sync_each wait t ((u, i) ∷ xs) acc (out, h) = ground (
  arith,
  out,
  eq_iff u t,
  lookup-insert u t (wait i) acc,
  lookup-sync_each wait t xs (insert u (wait i) acc) h,
)

module _ (M : Machinery) (Client : Type 0) where
  open M use {World, SharedIndexInformer}

  existing-registered :
      (t u : String) (i : SharedIndexInformer) (new_func : NewInformerFunc M Client)
      (f : SharedInformerFactory M Client) (w : World) (o : Option SharedIndexInformer)
      → lookup u f.informers ≡ o
      → lookup t f.informers ≡ some i
      → lookup t (existing_or_new M Client u new_func o (f, w)).1.0.informers ≡ some i
  existing-registered t u i new_func f w none missing h =
      lookup-insert u t _ f.informers ∙ ground (arith, missing, h, eq_iff u t)
  existing-registered t u i new_func f w (some j) there h = h

  pub existing-registers :
      (t : String) (new_func : NewInformerFunc M Client) (f : SharedInformerFactory M Client)
      (w : World) (o : Option SharedIndexInformer)
      → lookup t f.informers ≡ o
      → let (i, (f', _)) = existing_or_new M Client t new_func o (f, w) in
        lookup t f'.informers ≡ some i
  existing-registers t new_func f w none missing =
      lookup-insert t t _ f.informers ∙ ground (arith, eq_iff t t)
  existing-registers t new_func f w (some j) there = there

  step-registered :
      (t : String) (i : SharedIndexInformer) (c : FactoryCall M Client) (p : Process M Client)
      → registered M Client t p ≡ some i
      → registered M Client t (step M Client c p) ≡ some i
  unfolding step start informer_for
  step-registered t i (request u new_func) p h =
      existing-registered t u i new_func p.factory p.world (registered M Client u p) refl h
  step-registered t i start_all p h = h

  run_calls-registered :
      (t : String) (i : SharedIndexInformer) (cs : List (FactoryCall M Client))
      (p : Process M Client)
      → registered M Client t p ≡ some i
      → registered M Client t (run_calls M Client cs p) ≡ some i
  unfolding run_calls
  run_calls-registered t i [] p h = h
  run_calls-registered t i (c ∷ cs) p h =
      run_calls-registered t i cs (step M Client c p) (step-registered t i c p h)

  informer_for-registers :
      (t : String) (new_func : NewInformerFunc M Client) (p : Process M Client)
      → let (i, _) = informer_for M Client t new_func (p.factory, p.world) in
        registered M Client t (step M Client (request t new_func) p) ≡ some i
  unfolding step informer_for
  informer_for-registers t new_func p =
      existing-registers t new_func p.factory p.world (registered M Client t p) refl

  -- Once an informer of a type has been requested, every later request for the type, with whatever
  -- constructor and after whatever calls, returns that informer and changes nothing.
  pub informer_for-shared :
      (t : String) (new_func later_func : NewInformerFunc M Client) (p : Process M Client)
      (cs : List (FactoryCall M Client))
      → let (i, _) = informer_for M Client t new_func (p.factory, p.world) in
        let q = run_calls M Client cs (step M Client (request t new_func) p) in
        informer_for M Client t later_func (q.factory, q.world) ≡ (i, (q.factory, q.world))
  unfolding informer_for
  informer_for-shared t new_func later_func p cs =
      let i = (informer_for M Client t new_func (p.factory, p.world)).0 in
      let here =
        run_calls-registered t i cs (step M Client (request t new_func) p)
          (informer_for-registers t new_func p) in
      rw here refl

  existing-IsMap :
      (u : String) (new_func : NewInformerFunc M Client) (f : SharedInformerFactory M Client)
      (w : World) (o : Option SharedIndexInformer)
      → IsMap f.informers
      → IsMap (existing_or_new M Client u new_func o (f, w)).1.0.informers
  existing-IsMap u new_func f w none h = IsMap-insert u _ f.informers h
  existing-IsMap u new_func f w (some j) h = h

  run_calls-IsMap :
      (cs : List (FactoryCall M Client)) (p : Process M Client)
      → IsMap p.factory.informers
      → IsMap (run_calls M Client cs p).factory.informers
  unfolding run_calls step start informer_for
  run_calls-IsMap [] p h = h
  run_calls-IsMap (request u new_func ∷ cs) p h =
      run_calls-IsMap cs (step M Client (request u new_func) p)
        (existing-IsMap u new_func p.factory p.world (registered M Client u p) h)
  run_calls-IsMap (start_all ∷ cs) p h = run_calls-IsMap cs (step M Client start_all p) h

  wait-started :
      (wait : SharedIndexInformer → Bool) (f : SharedInformerFactory M Client) (t : String)
      → IsMap f.informers
      → lookup t (wait_for_cache_sync M Client wait f)
        ≡ keep_if (is_started t f.started_informers) (map_option wait (lookup t f.informers))
  unfolding wait_for_cache_sync
  wait-started wait f t h =
      let some_started = collect_started f.informers f.started_informers [] in
      lookup-sync_each wait t some_started []
        (collect_started-IsMap f.informers f.started_informers [] tt)
      ∙ ground (arith, lookup-collect_started t f.informers f.started_informers [] h)

  -- After any calls of a fresh factory, `WaitForCacheSync` answers for the types of the informers that
  -- were started and for no other: for each, whether the cache of its informer is in sync.
  pub wait_for_cache_sync-started :
      (wait : SharedIndexInformer → Bool) (f : SharedInformerFactory M Client) (w : World)
      (cs : List (FactoryCall M Client)) (t : String)
      → IsFresh M Client f
      → let p = run_calls M Client cs (record { factory = f; world = w; ran = [] }) in
        lookup t (wait_for_cache_sync M Client wait p.factory)
        ≡ keep_if (started M Client t p) (map_option wait (registered M Client t p))
  wait_for_cache_sync-started wait f w cs t (none_there, _) =
      let p = run_calls M Client cs (record { factory = f; world = w; ran = [] }) in
      wait-started wait p.factory t
        (run_calls-IsMap cs (record { factory = f; world = w; ran = [] }) (rw none_there tt))
