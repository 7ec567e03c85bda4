-- ===== src/K8sutils/Apps.antt =====
-- pkg/k8sutils/k8sutils.go: the storage classes and applications that share Portworx volumes.
use talisman.Common.{
  String, ◌==◌, List, [], ◌∷◌, ◌++◌, none, some, Bool, false, lookup, if◌then◌else◌,
}
use talisman.Go.Results.{Action, pure, ◌>>=◌, gather}
use talisman.Kube.Objects.{Labels, Workload}
use talisman.K8sutils.Instance.{Instance}

-- `isShared, present := params["shared"]; present && isShared == "true"`
unfoldable pub is_shared : Labels → Bool
is_shared params = elim (lookup "shared" params) [ none ↦ false | some v ↦ v == "true" ]

module _ {W : Type 0} (k : Instance W) where
  -- `GetPXSharedSCs`
  unfoldable pub get_px_shared_scs : Action W (List String)
  unfolding is_shared
  get_px_shared_scs = do
    scs ← k.kube_client.list_storage_classes
    gather scs λ sc. do
      params ← k.storage_ops.get_storage_class_params sc
      pure (if is_shared params then sc.name ∷ [] else [])

  -- The loop of `GetPXSharedApps` over the storage classes.
  unfoldable pub collect_apps : List String → Action W (List Workload × List Workload)
  collect_apps [] = pure ([], [])
  collect_apps (sc ∷ scs) = do
    deps ← k.apps_ops.get_deployments_using_storage_class sc
    ss ← k.apps_ops.get_stateful_sets_using_storage_class sc
    rest ← collect_apps scs
    pure (deps ++ rest.0, ss ++ rest.1)

  -- `GetPXSharedApps`
  unfoldable pub get_px_shared_apps : Action W (List Workload × List Workload)
  unfolding get_px_shared_scs collect_apps
  get_px_shared_apps = do scs ← get_px_shared_scs; collect_apps scs
