-- ===== src/Informers/Resources/Served.antt =====
-- Which resources have an informer, and which informer it is.
use talisman.Common.{
  String, ◌≡◌, refl, inl, inr, Bool-cases, Option, none, some, List, [], ◌∷◌, lookup, if◌then◌else◌,
}
use talisman.Go.Results.{Result, ok, err, panic}
use talisman.Kube.Machinery.{Machinery}
use talisman.Informers.{NewInformerFunc, informer_for}
use talisman.Informers.Sharing.{existing-registers}
use talisman.Informers.Resources.{
  GroupVersionResource, v1beta1_resource, v1beta2_resource, same_resource, cluster_type,
  strategy_v1beta1_type, strategy_v1beta2_type, VersionedInterface, Factory, GenericInformer,
  cluster_informer, strategy_v1beta1_informer, strategy_v1beta2_informer, for_resource,
  group_resource,
}

-- The resources, with the types of their objects.
abbrev pub known_resources : List (GroupVersionResource × String)
known_resources =
    (v1beta1_resource "clusters", cluster_type)
    ∷ (v1beta1_resource "volumeplacementstrategies", strategy_v1beta1_type)
    ∷ (v1beta2_resource "volumeplacementstrategies", strategy_v1beta2_type)
    ∷ []

abbrev pub find_type : GroupVersionResource → List (GroupVersionResource × String) → Option String
find_type r [] = none
find_type r ((k, t) ∷ rest) = if same_resource r k then some t else find_type r rest

module _ (M : Machinery) where
  open M use {World, SharedIndexInformer}

  -- The answer for a resource, and the factory afterwards: an informer of the type that is listed
  -- for it, the one that the factory now has of that type, or an error that changes nothing where none
  -- is listed.
  abbrev pub Served :
      GroupVersionResource
      → Factory M × World
      → Result (GenericInformer M) × (Factory M × World)
      → Type 0
  Served r s (ok g, (f', w')) =
      (t : String) × (find_type r known_resources ≡ some t)
      × (lookup t f'.informers ≡ some g.informer)
      × (g.resource ≡ group_resource r)
  Served r s (err _, s') = (find_type r known_resources ≡ none) × (s' ≡ s)
  Served r s (panic _, s') = ⊥

  informer_for-has :
      (t : String) (new_func : NewInformerFunc M (VersionedInterface M)) (f : Factory M) (w : World)
      → let (i, (f', _)) = informer_for M (VersionedInterface M) t new_func (f, w) in
        lookup t f'.informers ≡ some i
  unfolding informer_for
  informer_for-has t new_func f w =
      existing-registers M (VersionedInterface M) t new_func f w (lookup t f.informers) refl

  -- `ForResource` has an informer for the clusters of v1beta1 and for the volume placement strategies
  -- of the two versions, and for nothing else: it returns the informer that the factory has for the
  -- type of the objects, new or shared, and its other answers are errors that change nothing.
  pub for_resource-Served :
      (r : GroupVersionResource) (f : Factory M) (w : World)
      → Served r (f, w) (for_resource M r (f, w))
  unfolding for_resource cluster_informer strategy_v1beta1_informer strategy_v1beta2_informer
  for_resource-Served r f w = elim (Bool-cases (same_resource r (v1beta1_resource "clusters"))) [
    | inl cluster ↦
        rw cluster (cluster_type, rw cluster refl, informer_for-has cluster_type _ f w, refl)
    | inr other ↦
        rw other
          (elim (Bool-cases (same_resource r (v1beta1_resource "volumeplacementstrategies"))) [
            | inl first ↦ rw first (
              strategy_v1beta1_type,
              rw other (rw first refl),
              informer_for-has strategy_v1beta1_type _ f w,
              refl,
            )
            | inr next ↦
                rw next
                  (elim (Bool-cases
                    (same_resource r (v1beta2_resource "volumeplacementstrategies"))) [
                      | inl second ↦ rw second (
                        strategy_v1beta2_type,
                        rw other (rw next (rw second refl)),
                        informer_for-has strategy_v1beta2_type _ f w,
                        refl,
                      )
                      | inr unknown ↦ rw unknown (rw other (rw next (rw unknown refl)), refl)
                    ])
          ])
  ]
