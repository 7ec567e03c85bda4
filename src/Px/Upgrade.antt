-- ===== src/Px/Upgrade.antt =====
-- pkg/cluster/px/px.go: `Upgrade` and `preFlightChecks`.
pub mod Quiet
pub mod Reading
pub mod Checks
pub mod Preflight
pub mod Guarded
pub mod Calls
pub mod Rolling
pub mod Restored
use talisman.Common.{
  String, ◌<>◌, ◌==◌, Bool, true, false, Option, none, some, List, [], ◌∷◌, if◌then◌else◌,
}
use talisman.Go.Results.{
  Error, no_px_daemonset, using_internal_etcd, errorf, wrapped, Result, Action, pure, raise, ◌>>=◌,
  ◌>>◌, catch, for_each, with_defer, logged,
}
use talisman.Go.Retry.{Retrier}
use talisman.Api.{ClusterSpec}
use talisman.Openstorage.{VolumeDriver, ClusterManager}
use talisman.K8sutils.Instance.{minute}
use talisman.K8sutils.Pods.{is_any_px_app_pod_unmanaged}
use talisman.K8sutils.Scaling.Change.{IntOrString}
use talisman.K8sutils.Scaling.Tasks.{scale_shared_apps_to_zero, restore_scaled_apps_replicas}
use talisman.Px.Names.{px_service_name, default_px_image}
use talisman.Px.Ops.{PxClusterOps, UpgradeOptions, is_empty}
use talisman.Px.Daemonsets.{get_px_daemonsets}
use talisman.Px.Drain.{is_upgrade_app_drain_required, is_scale_down_of_shared_apps_required}
use talisman.Px.Config.{parse_config_from_daemonset}
use talisman.Px.Detach.{wait_till_px_shared_volumes_detached}
use talisman.Px.Rollout.{upgrade_px}

-- `newSpec` with its defaults.
abbrev pub with_defaults : ClusterSpec → ClusterSpec
with_defaults spec = record spec {
  px_image = if spec.px_image == "" then default_px_image else spec.px_image;
  px_tag = if spec.px_tag == "" then spec.oci_mon_tag else spec.px_tag;
}

-- The error of parsing the configuration, unless it is that of an internal etcd.
abbrev pub check_parsed : {W : Type 0} → Option Error → Action W (Unit {0})
check_parsed none = pure tt
check_parsed (some using_internal_etcd) = pure tt
check_parsed (some e) =
    raise (wrapped "Failed to parse PX config from Daemonset for upgrading PX due to err: %v" [] e)

-- The namespace of the installation, which must be the only one.
abbrev pub only_namespace : {W : Type 0} → List String → Action W String
only_namespace [] = raise no_px_daemonset
only_namespace (ns ∷ []) = pure ns
only_namespace (ns ∷ next ∷ rest) = raise (
    errorf
      "Found Portworx installed in more than one namespace: %s. Portworx is supported only in one namespace per cluster.  Delete Portworx specs from all but one namespace and retry."
      (ns ∷ next ∷ rest))

abbrev pub required : {W A : Type 0} → Option A → Action W A
required none = raise (errorf "new cluster spec is required for the upgrade call" [])
required (some a) = pure a

module _ {W : Type 0} (ops : PxClusterOps W) where
  -- `preFlightChecks`
  unfoldable pub pre_flight_checks : ClusterSpec → Action W (Unit {0})
  unfolding get_px_daemonsets for_each
  pre_flight_checks spec =
      if spec.oci_mon_tag == ""
      then raise (
          errorf
            "pre-flight check failed as new version of Portworx OCI monitor not given to upgrade API"
            [])
      else get_px_daemonsets ops >>= λ dss.
          if is_empty dss
          then raise no_px_daemonset
          else for_each dss λ d.
            catch (ops.k8s_apps.validate_daemon_set d.name d.namespace minute) λ e. raise (
              wrapped "pre-flight check failed as existing Portworx DaemonSet is not ready. err: %v"
                [] e)

  -- No application pod may be unmanaged where a drain is required.
  unfoldable pub check_drain : Bool → Action W (Unit {0})
  unfolding is_any_px_app_pod_unmanaged
  check_drain false = pure tt
  check_drain true = is_any_px_app_pod_unmanaged ops.utils >>= λ unmanaged.
      if unmanaged
      then raise (
          errorf
            "Aborting upgrade as some application pods using Portworx are not being managed by a controller. Retry after deleting these pods or running them using a controller (e.g Deployment, Statefulset etc)."
            [])
      else pure tt

module _ (R : Retrier) {W : Type 0} (ops : PxClusterOps W) (parse : String → IntOrString) where
  -- The upgrade between scaling down and restoring; the restoring is deferred, so it runs however
  -- the upgrade ends, unless the process ends with it.
  unfoldable pub upgrade_scaled_down :
      VolumeDriver W → ClusterSpec → Option UpgradeOptions → Action W (Unit {0})
  unfolding scale_shared_apps_to_zero restore_scaled_apps_replicas
      wait_till_px_shared_volumes_detached upgrade_px
  upgrade_scaled_down driver spec opts =
      with_defer (logged (restore_scaled_apps_replicas R ops.utils parse)) (
        scale_shared_apps_to_zero R ops.utils
        >> (wait_till_px_shared_volumes_detached ops R driver >> upgrade_px R ops spec opts))

  module _ (new_driver_client : String → String → String → String → Action W (VolumeDriver W))
      (new_cluster_client : String → String → Action W (ClusterManager W))
      (read_all : String → Result (List (List String))) where
    -- `getPXDriver`, over the clients of openstorage.
    unfoldable pub get_px_driver : String → Action W (VolumeDriver W × ClusterManager W)
    get_px_driver ip = do
      let px_endpoint = "http://" <> (ip <> ":9001")
      driver ← new_driver_client px_endpoint "pxd" "" "pxd"
      manager ← new_cluster_client px_endpoint "v1"
      pure (driver, manager)

    -- `Upgrade`; the platform that it stores in the provider is not read by what follows.
    unfoldable pub upgrade : Option ClusterSpec → Option UpgradeOptions → Action W (Unit {0})
    unfolding get_px_driver pre_flight_checks is_upgrade_app_drain_required check_drain
        parse_config_from_daemonset is_scale_down_of_shared_apps_required upgrade_scaled_down
        upgrade_px
    upgrade new_spec opts = do
      given ← required new_spec
      ns ← only_namespace ops.installed_namespaces
      svc ← ops.core_ops.get_service px_service_name ns
      (if svc.cluster_ip == ""
          then raise (errorf "Portworx service doesn't have a ClusterIP assigned" [])
          else pure tt)
      clients ← get_px_driver svc.cluster_ip
      pre_flight_checks ops given
      let spec = with_defaults given
      is_app_drain_needed ← catch (is_upgrade_app_drain_required spec clients.1) λ _. pure false
      check_drain ops is_app_drain_needed
      parsed ← parse_config_from_daemonset ops read_all
      check_parsed parsed.error
      if is_scale_down_of_shared_apps_required is_app_drain_needed opts
          then upgrade_scaled_down clients.0 spec opts
          else upgrade_px R ops spec opts
