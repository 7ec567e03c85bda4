-- ===== src/K8sutils/Scaling/Edits.antt =====
-- The tasks of the scaling code, over a store of applications: what an application is after it has been
-- edited once for each time that it is listed.
use mathlib.Core.Option
use mathlib.Core.Option.{some-injective}
use talisman.Common.{
  ◌≡◌, refl, sym, ◌∙◌, ap, inl, inr, Bool, true, false, ◌||◌, Option, some, List, [], ◌∷◌, arith,
  Bool-cases, if◌then◌else◌,
}
use talisman.Go.Results.{Result, ok, err, panic}
use talisman.Kube.Objects.{Workload}
use talisman.K8sutils.Scaling.Change.{Change, keep, put, refuse, crash_with, changed}
use talisman.K8sutils.Scaling.Store.{Key, same_key, same_key-eq, View}

-- The change is to the application itself: it keeps its name and namespace.
abbrev pub KeepsKey : (Workload → Change) → Type 0
KeepsKey change =
    (d d' : Workload) → change d ≡ put d' → (d'.namespace ≡ d.namespace) × (d'.name ≡ d.name)

abbrev pub edit : (Workload → Change) → Workload → Workload
edit change d = changed (change d) d

-- What is stored under a key after the applications of a list are edited in turn.
abbrev pub edits : (Workload → Change) → Key → List Key → Option Workload → Option Workload
edits change key [] o = o
edits change key (k ∷ ks) o =
    edits change key ks (if same_key k key then Option.map (edit change) o else o)

abbrev pub contains_key : List Key → Key → Bool
contains_key [] key = false
contains_key (k ∷ ks) key = same_key k key || contains_key ks key

-- An edit that goes through leaves an application with the property.
abbrev pub Settles : (Workload → Type 0) → Workload → Change → Type 0
Settles Z d keep = Z d
Settles Z d (put d') = Z d'
Settles Z d (refuse _) = Unit
Settles Z d (crash_with _) = Unit

-- After success each application of the list is edited in turn, no other is, and those of the list
-- that exist have the property.
abbrev pub EditedAll :
    {W : Type 0}
    → View W
    → (Workload → Change)
    → (Workload → Type 0)
    → List Key
    → W
    → Result (Unit {0}) × W
    → Type 0
EditedAll view change Z ks w (ok _, w') =
    ((key : Key) → view w' key ≡ edits change key ks (view w key))
    × ((key : Key) (d : Workload) → contains_key ks key ≡ true → view w' key ≡ some d → Z d)
EditedAll view change Z ks w (err _, w') = Unit
EditedAll view change Z ks w (panic _, w') = Unit

pub edits_absent :
    (change : Workload → Change) (key : Key) (ks : List Key) (o : Option Workload)
    → contains_key ks key ≡ false
    → edits change key ks o ≡ o
edits_absent change key [] o h = refl
edits_absent change key (k ∷ ks) o h = ground (arith, edits_absent change key ks o)

module _ {W : Type 0} (view : View W) (change : Workload → Change) (Z : Workload → Type 0) where
  -- What an application is like that was settled before the others were edited.
  settled_before :
      (k : Key) (ks : List Key) (w' w'' : W)
      → ((d : Workload) → view w' k ≡ some d → Z d)
      → ((key : Key) → view w'' key ≡ edits change key ks (view w' key))
      → ((key : Key) (d : Workload) → contains_key ks key ≡ true → view w'' key ≡ some d → Z d)
      → (key : Key) (d : Workload) → contains_key (k ∷ ks) key ≡ true
      → view w'' key ≡ some d
      → Z d
  settled_before k ks w' w'' z more zs key d h v = elim (Bool-cases (contains_key ks key)) [
    | inl later ↦ zs key d later v
    | inr first ↦
        let at : k ≡ key = same_key-eq k key (ground (arith, first)) in
        z d (
          ap (view w') at
          ∙ sym (edits_absent change key ks (view w' key) first)
          ∙ sym (more key)
          ∙ v)
  ]

  -- One more application, edited before the others.
  pub EditedAll-cons :
      (k : Key) (ks : List Key) (w w' : W) (o : Result (Unit {0}) × W)
      → ((key : Key)
          → view w' key
            ≡ (if same_key k key then Option.map (edit change) (view w key) else view w key))
      → ((d : Workload) → view w' k ≡ some d → Z d)
      → EditedAll view change Z ks w' o
      → EditedAll view change Z (k ∷ ks) w o
  EditedAll-cons k ks w w' (ok _, w'') one z (more, zs) =
      (λ key. more key ∙ ap (edits change key ks) (one key), settled_before k ks w' w'' z more zs)
  EditedAll-cons k ks w w' (err _, w'') one z more = tt
  EditedAll-cons k ks w w' (panic _, w'') one z more = tt
