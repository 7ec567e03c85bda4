-- ===== src/K8sutils/Scaling/Store.antt =====
-- What the scaling code relies on of client-go: the applications of a cluster are a store that
-- reads return and updates write.
use talisman.Common.{
  String, ◌==◌, ◌≡◌, refl, ◌∙◌, ◌↔◌, ◌⊎◌, Bool, true, false, ◌&&◌, Option, none, some, arith,
  eq_iff, if◌then◌else◌,
}
use talisman.Go.Results.{Result, ok, err, panic, is_not_found, Action, pure, continue_with, ◌>>=◌}
use talisman.Kube.Objects.{Workload}
use talisman.Kube.Clients.{KubeClient}

pub data AppKind : Type 0 where
  deployment stateful_set : AppKind

pub record Key : Type 0 where
  pub kind : AppKind
  pub namespace : String
  pub name : String

abbrev pub key_of : AppKind → Workload → Key
key_of kind d = record { kind = kind; namespace = d.namespace; name = d.name }

abbrev pub same_kind : AppKind → AppKind → Bool
same_kind deployment deployment = true
same_kind stateful_set stateful_set = true
same_kind _ _ = false

abbrev pub same_key : Key → Key → Bool
same_key a b = same_kind a.kind b.kind && a.namespace == b.namespace && a.name == b.name

same_kind_iff : (a b : AppKind) → (same_kind a b ≡ true) ↔ (a ≡ b)
same_kind_iff a b = ground arith

pub same_key-eq : (a b : Key) → same_key a b ≡ true → a ≡ b
same_key-eq a b h =
    ground
      (arith, same_kind_iff a.kind b.kind, eq_iff a.namespace b.namespace, eq_iff a.name b.name)

pub same_key_refl : (a : Key) → same_key a a ≡ true
same_key_refl a =
    ground
      (arith, same_kind_iff a.kind a.kind, eq_iff a.namespace a.namespace, eq_iff a.name a.name)

-- The application that is stored under a key.
abbrev pub View : Type 0 → Type 0
View W = W → Key → Option Workload

-- What is seen of two states, at every key, is the same.
abbrev pub Same : {W K V : Type 0} → (W → K → V) → W → W → Type 0
Same {K = K} view w w' = (key : K) → view w' key ≡ view w key

module _ {W : Type 0} (view : View W) where
  -- A read returns what is stored, and reports an application as not found only if it is absent.
  abbrev pub ReadsBack : Key → W → Result Workload × W → Type 0
  ReadsBack key w (ok d, w') =
      (view w key ≡ some d) × (d.namespace ≡ key.namespace) × (d.name ≡ key.name) × Same view w w'
  ReadsBack key w (err e, w') = (is_not_found e ≡ true → view w key ≡ none) × Same view w w'
  ReadsBack key w (panic _, w') = Unit

  abbrev pub Wrote : AppKind → Workload → W → W → Type 0
  Wrote kind d w w' =
      (key : Key) → view w' key ≡ (if same_key (key_of kind d) key then some d else view w key)

  -- An update writes the one application. One that returns an error has changed nothing or, where that is
  -- possible, has been carried out all the same.
  abbrev pub Writes : Bool → AppKind → Workload → W → Result (Unit {0}) × W → Type 0
  Writes in_doubt kind d w (ok _, w') = Wrote kind d w w'
  Writes in_doubt kind d w (err _, w') = Same view w w' ⊎ ((in_doubt ≡ true) × Wrote kind d w w')
  Writes in_doubt kind d w (panic _, w') = Unit

  -- A failed update of a deployment may have been carried out, one of a stateful set has not.
  pub record IsAppStore (c : KubeClient W) : Type 0 where
    pub get_deployment_reads :
        (namespace name : String) (w : W)
        → ReadsBack
            (record { kind = deployment; namespace = namespace; name = name })
            w
            (c.get_deployment namespace name w)
    pub update_deployment_writes :
        (d : Workload) (w : W) → Writes true deployment d w (c.update_deployment d.namespace d w)
    pub get_stateful_set_reads :
        (namespace name : String) (w : W)
        → ReadsBack
            (record { kind = stateful_set; namespace = namespace; name = name })
            w
            (c.get_stateful_set namespace name w)
    pub update_stateful_set_writes :
        (s : Workload) (w : W)
        → Writes false stateful_set s w (c.update_stateful_set s.namespace s w)

  -- A call that leaves the applications alone, and whose value, if it returns one, has a property.
  abbrev pub Yielded : {A : Type 0} → (A → Type 0) → W → Result A × W → Type 0
  Yielded P w (ok a, w') = P a × Same view w w'
  Yielded P w (err _, w') = Same view w w'
  Yielded P w (panic _, w') = Same view w w'

  abbrev pub Yields : {A : Type 0} → (A → Type 0) → Action W A → Type 0
  Yields P m = (w : W) → Yielded P w (m w)

  Yielded-trans :
      {A : Type 0} (P : A → Type 0) (w w' : W) (o : Result A × W)
      → Same view w w'
      → Yielded P w' o
      → Yielded P w o
  Yielded-trans P w w' (ok a, w'') same (p, more) = (p, λ key. more key ∙ same key)
  Yielded-trans P w w' (err _, w'') same more = λ key. more key ∙ same key
  Yielded-trans P w w' (panic _, w'') same more = λ key. more key ∙ same key

  pub Yields-pure : {A : Type 0} (P : A → Type 0) (a : A) → P a → Yields P (pure a)
  Yields-pure P a p w = (p, λ key. refl)

  pub Yields-bind :
      {A B : Type 0} (P : A → Type 0) (Q : B → Type 0) (m : Action W A) (f : A → Action W B)
      → Yields P m
      → ((a : A) → P a → Yields Q (f a))
      → Yields Q (m >>= f)
  Yields-bind {A} {B} P Q m f first next w = go (m w).0 (m w).1 (first w)
    where
      go : (r : Result A) (w' : W) → Yielded P w (r, w') → Yielded Q w (continue_with f r w')
      go (ok a) w' (p, same) = Yielded-trans Q w w' (f a w') same (next a p w')
      go (err e) w' same = same
      go (panic p) w' same = same
