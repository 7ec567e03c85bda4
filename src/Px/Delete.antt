-- ===== src/Px/Delete.antt =====
-- pkg/cluster/px/px.go: `deleteAllPXComponents`.
pub mod Rules
pub mod Laws
pub mod Parts
pub mod Listed
pub mod Loops
pub mod Complete
use talisman.Common.{
  String, ◌<>◌, starts_with, Option, none, some, List, [], ◌∷◌, ◌++◌, if◌then◌else◌,
}
use talisman.Go.Results.{nil_pointer, Action, pure, crash, ◌>>=◌, ◌>>◌, ignore_not_found, for_each}
use talisman.Go.Text.{keep_alnum, to_lower, replace_all}
use talisman.Px.Names
use talisman.Px.Names.{
  px_secrets_namespace, bootstrap_cloud_drive_namespace, px_bringup_queue_config_map_prefix,
}
use talisman.Px.Ops.{PxClusterOps}
use talisman.Px.Daemonsets.{get_px_daemonsets}

-- `strings.ToLower(configMapNameRegex.ReplaceAllString(clusterName, ""))`
unfoldable pub stripped_cluster_name : String → String
unfolding to_lower keep_alnum
stripped_cluster_name cluster_name = to_lower (keep_alnum cluster_name)

-- The names of the two config maps of a cluster.
abbrev pub cluster_config_maps : String → List String
cluster_config_maps stripped =
    (Names.internal_etcd_config_map_prefix <> stripped)
    ∷ (Names.cloud_drive_config_map_prefix <> stripped)
    ∷ []

unfoldable pub cluster_wide_secret : String → String
unfolding replace_all
cluster_wide_secret cluster_name = replace_all "_" "-" (cluster_name <> "_px_secret")

-- The listed config maps whose names begin with the prefix of the bring-up queue.
unfoldable pub bringup_config_maps : List String → List String
bringup_config_maps [] = []
bringup_config_maps (cm ∷ cms) =
    let rest = bringup_config_maps cms in
    if starts_with cm px_bringup_queue_config_map_prefix then cm ∷ rest else rest

module _ {W : Type 0} (ops : PxClusterOps W) where
  -- A daemon set that is not found is an error here.
  unfoldable pub delete_px_daemonsets : Action W (Unit {0})
  unfolding get_px_daemonsets for_each
  delete_px_daemonsets = do
    dss ← get_px_daemonsets ops
    for_each dss λ ds. ops.k8s_apps.delete_daemon_set ds.name ds.namespace

  unfoldable pub delete_cluster_roles : Action W (Unit {0})
  unfolding for_each
  delete_cluster_roles =
      for_each
        (Names.px_cluster_role_name ∷ Names.stork_controller_cluster_role
          ∷ Names.stork_scheduler_cluster_role ∷ Names.pvc_controller_cluster_role
          ∷ Names.csi_cluster_role ∷ [])
        λ role. ignore_not_found (ops.k8s_rbac.delete_cluster_role role)

  unfoldable pub delete_cluster_role_bindings : Action W (Unit {0})
  unfolding for_each
  delete_cluster_role_bindings =
      for_each
        (Names.px_cluster_role_binding_name ∷ Names.stork_controller_cluster_binding
          ∷ Names.stork_scheduler_cluser_binding ∷ Names.pvc_controller_cluster_role_binding
          ∷ Names.csi_cluster_role_binding ∷ [])
        λ binding. ignore_not_found (ops.k8s_rbac.delete_cluster_role_binding binding)

  -- The secret of the cluster, the storage class and the webhook of stork, and the namespace.
  unfoldable pub delete_cluster_wide : String → Action W (Unit {0})
  unfolding cluster_wide_secret
  delete_cluster_wide cluster_name = do
    ignore_not_found
        (ops.core_ops.delete_secret (cluster_wide_secret cluster_name) px_secrets_namespace)
    ignore_not_found (ops.k8s_storage.delete_storage_class Names.stork_snapshot_storage_class)
    ignore_not_found
        (ops.k8s_admissions.delete_mutating_webhook_configuration Names.stork_webhook_cfg)
    ignore_not_found (ops.core_ops.delete_namespace px_secrets_namespace)

  -- The error of the listing is not looked at: a nil list is a panic.
  abbrev pub listed_config_maps : Option (List String) → Action W (List String)
  listed_config_maps none = crash nil_pointer
  listed_config_maps (some cms) = pure cms

  unfoldable pub delete_bootstrap_config_maps : String → Action W (Unit {0})
  unfolding bringup_config_maps for_each
  delete_bootstrap_config_maps stripped w =
      let ((items, _), w') = ops.core_ops.list_config_map bootstrap_cloud_drive_namespace w in
      (do
        cms ← listed_config_maps items
        for_each
            ((Names.px_attach_driveset_config_map ∷ cluster_config_maps stripped)
              ++ bringup_config_maps cms)
            λ cm.
              ignore_not_found (ops.core_ops.delete_config_map cm bootstrap_cloud_drive_namespace))
        w'

  -- The body of the loop over the namespaces.
  unfoldable pub delete_namespace_components : String → String → Action W (Unit {0})
  unfolding for_each
  delete_namespace_components stripped ns = do
    ignore_not_found (ops.k8s_apps.delete_daemon_set Names.px_api_daemonset ns)
    for_each
        (Names.stork_controller_name ∷ Names.stork_scheduler_name ∷ Names.pvc_controller_name
          ∷ Names.lh_deployment_name ∷ Names.csi_ext_deployment_name ∷ [])
        λ dep. ignore_not_found (ops.k8s_apps.delete_deployment dep ns)
    for_each {A = String × String}
        ((Names.px_role_name, px_secrets_namespace) ∷ (Names.lh_role_name, ns) ∷ [])
        λ role. ignore_not_found (ops.k8s_rbac.delete_role role.0 role.1)
    for_each {A = String × String}
        ((Names.px_role_binding_name, px_secrets_namespace) ∷ (Names.lh_role_binding_name, ns) ∷ [])
        λ binding. ignore_not_found (ops.k8s_rbac.delete_role_binding binding.0 binding.1)
    for_each
        (Names.px_service_account_name ∷ Names.lh_service_account_name
          ∷ Names.stork_controller_service_account ∷ Names.stork_scheduler_service_account
          ∷ Names.pvc_controller_service_account ∷ Names.csi_account ∷ [])
        λ acc. ignore_not_found (ops.core_ops.delete_service_account acc ns)
    for_each
        (Names.px_service_name ∷ Names.px_api_service_name ∷ Names.stork_service_name
          ∷ Names.lh_service_name ∷ Names.csi_service ∷ [])
        λ svc. ignore_not_found (ops.core_ops.delete_service svc ns)
    for_each (Names.csi_stateful_set ∷ [])
        λ ss. ignore_not_found (ops.k8s_apps.delete_stateful_set ss ns)
    for_each (Names.osb_secret_name ∷ Names.essential_secret_name ∷ [])
        λ sec. ignore_not_found (ops.core_ops.delete_secret sec ns)
    for_each
        (Names.pure_cloud_drive_config_map
          ∷ Names.lh_config_map
          ∷ Names.stork_controller_config_map
          ∷ Names.px_attach_driveset_config_map
          ∷ cluster_config_maps stripped)
        λ cm. ignore_not_found (ops.core_ops.delete_config_map cm ns)

  -- `deleteAllPXComponents`
  unfoldable pub delete_all_px_components : String → Action W (Unit {0})
  unfolding stripped_cluster_name delete_px_daemonsets delete_cluster_roles
      delete_cluster_role_bindings delete_cluster_wide delete_bootstrap_config_maps
      delete_namespace_components for_each
  delete_all_px_components cluster_name = do
    let stripped = stripped_cluster_name cluster_name
    delete_px_daemonsets
    delete_cluster_roles
    delete_cluster_role_bindings
    delete_cluster_wide cluster_name
    delete_bootstrap_config_maps stripped
    for_each ops.installed_namespaces (delete_namespace_components stripped)
