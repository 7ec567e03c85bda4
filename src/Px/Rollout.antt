-- ===== src/Px/Rollout.antt =====
-- pkg/cluster/px/px.go: `upgradePX`, the rolling upgrade of the daemon sets.
pub mod Plan
pub mod Trigger
pub mod Wait
pub mod Sending
pub mod Started
pub mod Observed
use talisman.Common.{ℕ, String, ◌<>◌, ◌==◌, List, [], ◌∷◌, lookup, Option, none, some}
use talisman.Go.Results.{
  nil_pointer, crash, Result, ok, err, panic, Action, pure, ◌>>=◌, ◌>>◌, for_each,
}
use talisman.Go.Retry.{Retrier}
use talisman.Kube.Objects.{DaemonSet}
use talisman.Api.{ClusterSpec}
use talisman.Px.Names.{px_service_name, daemonset_update_trigger_timeout}
use talisman.K8sutils.Instance.{default_retry_interval}
use talisman.Px.Ops.{PxClusterOps, UpgradeOptions}
use talisman.Px.ClusterRole.{px_cluster_role}
use talisman.Px.Permissions.{update_px_secrets_permissions}
use talisman.Px.Timeouts.{get_daemon_set_ready_timeout}
use talisman.Px.Api.{
  default_target_ports, override_ports, px_service_patch, check_api_daemonset, check_api_service,
}
use talisman.Px.Rollout.Trigger.{Progress, nothing_started, trigger_task}
use talisman.Px.Rollout.Wait.{generation_task}

-- `opts.TimeoutPerNode` of options that are nil is a panic.
abbrev pub options_of : {W : Type 0} → Option UpgradeOptions → Action W UpgradeOptions
options_of none = crash nil_pointer
options_of (some opts) = pure opts

module _ (R : Retrier) {W : Type 0} (ops : PxClusterOps W) where
  -- The body of the loop over the daemon sets whose upgrade was started.
  unfoldable pub finish_daemonset :
      Option UpgradeOptions → List (String × ℕ) → DaemonSet → Action W (Unit {0})
  unfolding generation_task get_daemon_set_ready_timeout override_ports px_service_patch
      check_api_daemonset check_api_service
  finish_daemonset opts expected ds = do
    R.retry W daemonset_update_trigger_timeout default_retry_interval
        (generation_task ops expected ds)
    options ← options_of opts
    timeout ← get_daemon_set_ready_timeout ops options.timeout_per_node
    ops.k8s_apps.validate_daemon_set ds.name ds.namespace timeout
    px_service ← ops.core_ops.get_service px_service_name ds.namespace
    let ports = override_ports px_service.ports default_target_ports
    ops.core_ops.patch_service px_service_name ds.namespace (px_service_patch ports)
    check_api_daemonset ops ds.namespace ds.pod.affinity
    check_api_service ops ds.namespace ports

  abbrev finish_all : Option UpgradeOptions → Progress → Action W (Unit {0})
  finish_all opts p = for_each p.dss (finish_daemonset opts p.expected_generations)

  -- After the loop that starts the upgrade; its variables are read only if it has succeeded.
  abbrev pub after_trigger :
      Option UpgradeOptions → Result (Unit {0}) → W × Progress → Result (Unit {0}) × W
  after_trigger opts (ok _) (w, p) = finish_all opts p w
  after_trigger opts (err e) (w, p) = (err e, w)
  after_trigger opts (panic c) (w, p) = (panic c, w)

  unfoldable pub roll_out : String → Option UpgradeOptions → Action W (Unit {0})
  unfolding trigger_task finish_daemonset for_each
  roll_out image opts w =
      let (r, s) =
        R.retry (W × Progress) daemonset_update_trigger_timeout default_retry_interval
          (trigger_task ops image) (w, nothing_started) in
      after_trigger opts r s

  -- `upgradePX`
  unfoldable pub upgrade_px : ClusterSpec → Option UpgradeOptions → Action W (Unit {0})
  unfolding update_px_secrets_permissions roll_out
  upgrade_px spec opts = do
    ops.k8s_rbac.update_cluster_role px_cluster_role
    update_px_secrets_permissions ops
    roll_out (spec.oci_mon_image <> (":" <> spec.oci_mon_tag)) opts
