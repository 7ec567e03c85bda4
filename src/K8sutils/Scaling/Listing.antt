-- ===== src/K8sutils/Scaling/Listing.antt =====
-- The applications that `GetPXSharedApps` lists, when the clients give the same lists each time.
use mathlib.Core.List.{map-append}
use talisman.Common.{String, ◌≡◌, refl, List, [], ◌∷◌, ◌++◌, map, if◌then◌else◌}
use talisman.Go.Results.{pure, ◌>>=◌, gather}
use talisman.Kube.Objects.{Labels, Workload, StorageClass}
use talisman.K8sutils.Instance.{Instance}
use talisman.K8sutils.Apps.{is_shared, get_px_shared_scs, collect_apps, get_px_shared_apps}
use talisman.K8sutils.Scaling.Store.{
  deployment, stateful_set, Key, key_of, View, Yields, Yields-pure, Yields-bind,
}

-- What the clients say of storage classes and the applications that use them.
pub record Inventory : Type 0 where
  pub classes : List StorageClass
  pub params : StorageClass → Labels
  pub deployments : String → List Key
  pub stateful_sets : String → List Key

module _ (i : Inventory) where
  shared_from : List StorageClass → List String
  shared_from [] = []
  shared_from (sc ∷ scs) = (if is_shared (i.params sc) then sc.name ∷ [] else []) ++ shared_from scs

  -- The names of the shared storage classes.
  unfoldable pub shared_classes : List String
  unfolding shared_from is_shared
  shared_classes = shared_from i.classes

  keys_of : (String → List Key) → List String → List Key
  keys_of apps [] = []
  keys_of apps (sc ∷ scs) = apps sc ++ keys_of apps scs

  -- The keys of the shared applications, one for each shared class that the application uses.
  unfoldable pub shared_deployments : List Key
  unfolding keys_of shared_classes
  shared_deployments = keys_of i.deployments shared_classes

  unfoldable pub shared_stateful_sets : List Key
  unfolding keys_of shared_classes
  shared_stateful_sets = keys_of i.stateful_sets shared_classes

module _ {W : Type 0} (view : View W) (k : Instance W) (i : Inventory) where
  -- A listing fails, or says what the inventory says; it changes no application.
  pub record IsListed : Type 0 where
    pub list_storage_classes_lists :
        Yields view (λ scs. scs ≡ i.classes) k.kube_client.list_storage_classes
    pub get_storage_class_params_lists :
        (sc : StorageClass)
        → Yields view (λ params. params ≡ i.params sc) (k.storage_ops.get_storage_class_params sc)
    pub get_deployments_lists :
        (sc : String)
        → Yields view
            (λ deps. map (key_of deployment) deps ≡ i.deployments sc)
            (k.apps_ops.get_deployments_using_storage_class sc)
    pub get_stateful_sets_lists :
        (sc : String)
        → Yields view
            (λ ss. map (key_of stateful_set) ss ≡ i.stateful_sets sc)
            (k.apps_ops.get_stateful_sets_using_storage_class sc)

module _ {W : Type 0} (view : View W) (k : Instance W) (i : Inventory) (L : IsListed view k i) where
  loop-Yields :
      (scs : List StorageClass)
      → Yields view
          (λ names. names ≡ shared_from i scs)
          (gather scs λ sc. k.storage_ops.get_storage_class_params sc >>= λ params.
            pure (if is_shared params then sc.name ∷ [] else []))
  unfolding gather shared_from
  loop-Yields [] = Yields-pure view (λ names. names ≡ shared_from i []) [] refl
  loop-Yields (sc ∷ scs) =
      let named : Labels → List String = λ params. if is_shared params then sc.name ∷ [] else [] in
      Yields-bind view (λ names. names ≡ named (i.params sc)) _ _ _
        (Yields-bind view _ _ _ _ (L.get_storage_class_params_lists sc)
          λ params e. Yields-pure view (λ names. names ≡ named (i.params sc)) (named params) (rw e))
        λ names e. Yields-bind view _ _ _ _ (loop-Yields scs) λ rest er.
          Yields-pure view (λ all. all ≡ named (i.params sc) ++ shared_from i scs) (names ++ rest)
            (rw (e, er))

  get_px_shared_scs-Yields : Yields view (λ scs. scs ≡ shared_classes i) (get_px_shared_scs k)
  unfolding get_px_shared_scs shared_classes
  get_px_shared_scs-Yields =
      Yields-bind view _ _ _ _ L.list_storage_classes_lists λ scs e. rw e (loop-Yields i.classes)

  abbrev AreKeys : List String → List Workload × List Workload → Type 0
  AreKeys scs apps =
      (map (key_of deployment) apps.0 ≡ keys_of i i.deployments scs)
      × (map (key_of stateful_set) apps.1 ≡ keys_of i i.stateful_sets scs)

  collect_apps-Yields : (scs : List String) → Yields view (AreKeys scs) (collect_apps k scs)
  unfolding collect_apps keys_of
  collect_apps-Yields [] = Yields-pure view (AreKeys []) ([], []) (refl, refl)
  collect_apps-Yields (sc ∷ scs) = Yields-bind view _ _ _ _ (L.get_deployments_lists sc) λ deps ed.
      Yields-bind view _ _ _ _ (L.get_stateful_sets_lists sc) λ ss es.
        Yields-bind view _ _ _ _ (collect_apps-Yields scs) λ rest er.
          Yields-pure view (AreKeys (sc ∷ scs)) (deps ++ rest.0, ss ++ rest.1)
            (rw (map-append, ed, er.0), rw (map-append, es, er.1))

  -- The keys of what `GetPXSharedApps` returns are those of the inventory.
  pub get_px_shared_apps-Yields :
      Yields view
        (λ apps.
          (map (key_of deployment) apps.0 ≡ shared_deployments i)
          × (map (key_of stateful_set) apps.1 ≡ shared_stateful_sets i))
        (get_px_shared_apps k)
  unfolding get_px_shared_apps shared_deployments shared_stateful_sets
  get_px_shared_apps-Yields =
      Yields-bind view _ _ _ _ get_px_shared_scs-Yields λ scs e. rw e (collect_apps-Yields _)
