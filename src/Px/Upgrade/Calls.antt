-- ===== src/Px/Upgrade/Calls.antt =====
-- pkg/cluster/px/px.go: the applications, and what `Upgrade` does between scaling down and
-- restoring.
use talisman.Common.{ℕ, String, refl, List, [], ◌∷◌}
use talisman.Go.Results.{ok, err, is_already_exists}
use talisman.Go.Retry.{Retrier, IsRetry}
use talisman.Kube.Objects.{
  DaemonSet, Service, ServicePort, Role, RoleBinding, StorageClass, PersistentVolumeClaim,
}
use talisman.Openstorage.{VolumeDriver}
use talisman.K8sutils.Apps.{get_px_shared_scs}
use talisman.K8sutils.Scaling.Store.{View, Same}
use talisman.Px.Ops.{PxClusterOps}
use talisman.Px.Permissions.{
  first_of, secrets_role, secrets_role_binding, create_or_update_role,
  create_or_update_role_binding, update_px_secrets_permissions,
}
use talisman.Px.Detach.{volumes_to_inspect, detach_task, wait_till_px_shared_volumes_detached}
use talisman.Px.Upgrade.Quiet.{
  Quiet, pure-Quiet, then-Quiet, catch-Quiet, if-Quiet, gather-Quiet, call-QuietTask, retry-Quiet,
}

module _ {W : Type 0} (view : View W) (ops : PxClusterOps W) (driver : VolumeDriver W) where
  -- The calls that concern neither deployments nor stateful sets leave them as they are.
  pub record LeavesApps : Type 0 where
    pub list_storage_classes_quiet : Quiet view ops.utils.kube_client.list_storage_classes
    pub get_storage_class_params_quiet :
        (sc : StorageClass) → Quiet view (ops.utils.storage_ops.get_storage_class_params sc)
    pub get_pvcs_quiet : (sc : String) → Quiet view (ops.core_ops.get_pvcs_using_storage_class sc)
    pub get_volume_quiet :
        (pvc : PersistentVolumeClaim)
        → Quiet view (ops.core_ops.get_volume_for_persistent_volume_claim pvc)
    pub inspect_quiet : (vols : List String) → Quiet view (driver.inspect vols)
    pub update_cluster_role_quiet : (r : Role) → Quiet view (ops.k8s_rbac.update_cluster_role r)
    pub create_namespace_quiet : (ns : String) → Quiet view (ops.core_ops.create_namespace ns)
    pub create_role_quiet : (r : Role) → Quiet view (ops.k8s_rbac.create_role r)
    pub update_role_quiet : (r : Role) → Quiet view (ops.k8s_rbac.update_role r)
    pub create_role_binding_quiet :
        (b : RoleBinding) → Quiet view (ops.k8s_rbac.create_role_binding b)
    pub update_role_binding_quiet :
        (b : RoleBinding) → Quiet view (ops.k8s_rbac.update_role_binding b)
    pub list_daemon_sets_quiet :
        (ns selector : String) → Quiet view (ops.k8s_apps.list_daemon_sets ns selector)
    pub get_daemon_set_quiet : (name ns : String) → Quiet view (ops.k8s_apps.get_daemon_set name ns)
    pub update_daemon_set_quiet : (ds : DaemonSet) → Quiet view (ops.k8s_apps.update_daemon_set ds)
    pub create_daemon_set_same :
        (ds : DaemonSet) (w : W) → Same view w (ops.k8s_apps.create_daemon_set ds w).1
    pub validate_daemon_set_quiet :
        (name ns : String) (timeout : ℕ)
        → Quiet view (ops.k8s_apps.validate_daemon_set name ns timeout)
    pub get_nodes_quiet : Quiet view ops.core_ops.get_nodes
    pub get_service_quiet : (name ns : String) → Quiet view (ops.core_ops.get_service name ns)
    pub create_service_quiet : (s : Service) → Quiet view (ops.core_ops.create_service s)
    pub patch_service_quiet :
        (name ns : String) (ports : List ServicePort)
        → Quiet view (ops.core_ops.patch_service name ns ports)

  module _ (L : LeavesApps) (R : Retrier) (is_retry : IsRetry R) where
    volumes_to_inspect-Quiet : Quiet view (volumes_to_inspect ops)
    unfolding volumes_to_inspect get_px_shared_scs
    volumes_to_inspect-Quiet =
        then-Quiet view _ _
          (then-Quiet view _ _ L.list_storage_classes_quiet λ scs. gather-Quiet view scs _ λ sc.
            then-Quiet view _ _ (L.get_storage_class_params_quiet sc)
              λ params. pure-Quiet view (ok _))
          λ scs. gather-Quiet view scs _ λ sc. then-Quiet view _ _ (L.get_pvcs_quiet sc) λ pvcs.
            gather-Quiet view pvcs _ λ pvc.
              then-Quiet view _ _ (L.get_volume_quiet pvc) λ pv. pure-Quiet view (ok (pv ∷ []))

    pub wait-Quiet : Quiet view (wait_till_px_shared_volumes_detached ops R driver)
    unfolding wait_till_px_shared_volumes_detached detach_task
    wait-Quiet = then-Quiet view _ _ volumes_to_inspect-Quiet λ vols.
        retry-Quiet view R is_retry _ _ (detach_task ops driver vols) (
          call-QuietTask view (driver.inspect vols) _ _ (L.inspect_quiet vols)
            λ found. record { quiet = λ w key. refl })

    pub permissions-Quiet : Quiet view (update_px_secrets_permissions ops)
    unfolding update_px_secrets_permissions create_or_update_role create_or_update_role_binding
    permissions-Quiet =
        then-Quiet view _ _
          (catch-Quiet view _ _ (L.create_namespace_quiet "portworx") λ e.
            if-Quiet view (is_already_exists e) _ _ (pure-Quiet view (ok tt))
              (pure-Quiet view (err e)))
          λ _.
            then-Quiet view _ _
              (catch-Quiet view _ _ (L.create_role_quiet secrets_role) λ e.
                if-Quiet view (is_already_exists e) _ _ (L.update_role_quiet secrets_role)
                  (pure-Quiet view (err e)))
              λ _. then-Quiet view _ _ (first ops.installed_namespaces) λ ns.
                catch-Quiet view _ _ (L.create_role_binding_quiet (secrets_role_binding ns)) λ e.
                  if-Quiet view (is_already_exists e) _ _
                    (L.update_role_binding_quiet (secrets_role_binding ns))
                    (pure-Quiet view (err e))
      where
        first : (xs : List String) → Quiet view (first_of xs)
        first [] = record { quiet = λ w key. refl }
        first (x ∷ _) = record { quiet = λ w key. refl }
