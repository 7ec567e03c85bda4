-- ===== src/K8sutils/Scaling/Tasks.antt =====
-- pkg/k8sutils/k8sutils.go: `ScaleSharedAppsToZero` and `RestoreScaledAppsReplicas`.
use talisman.Common.{String, List, if◌then◌else◌}
use talisman.Go.Results.{Error, is_not_found, Action, ◌>>=◌, ◌>>◌, for_each}
use talisman.Go.Retry.{Attempt, done, again, give_up, crashed, Task, call, Retrier}
use talisman.Kube.Objects.{Workload}
use talisman.K8sutils.Instance.{
  Instance, deployment_update_timeout, stateful_set_update_timeout, default_retry_interval,
}
use talisman.K8sutils.Apps.{get_px_shared_apps}
use talisman.K8sutils.Scaling.Change.{
  Change, keep, put, refuse, crash_with, scale_deployment, scale_stateful_set, IntOrString,
  restore_app,
}

-- An application that is gone is done with; any other error of a read is retried.
abbrev pub on_read_error : Error → Attempt
on_read_error e = if is_not_found e then done else again e

module _ {W : Type 0} where
  abbrev pub apply_change : (String → Workload → Action W (Unit {0})) → Change → Task W
  apply_change update keep w = (done, w)
  apply_change update (put d') w = call (update d'.namespace d') again (λ _ w'. (done, w')) w
  apply_change update (refuse e) w = (give_up e, w)
  apply_change update (crash_with p) w = (crashed p, w)

  -- One round of a task: the application is read, and written back if it changes.
  unfoldable pub edit_task :
      (String → String → Action W Workload)
      → (String → Workload → Action W (Unit {0}))
      → (Workload → Change)
      → String
      → String
      → Task W
  edit_task get update change namespace name =
      call (get namespace name) on_read_error λ d. apply_change update (change d)

module _ (R : Retrier) {W : Type 0} (k : Instance W) where
  -- The loop over the deployments.
  unfoldable pub edit_deployments : (Workload → Change) → List Workload → Action W (Unit {0})
  unfolding edit_task
  edit_deployments change deps = for_each deps λ d.
      R.retry W deployment_update_timeout default_retry_interval (
        edit_task k.kube_client.get_deployment k.kube_client.update_deployment change d.namespace
          d.name)

  -- The loop over the stateful sets.
  unfoldable pub edit_stateful_sets : (Workload → Change) → List Workload → Action W (Unit {0})
  unfolding edit_task
  edit_stateful_sets change ss = for_each ss λ s.
      R.retry W stateful_set_update_timeout default_retry_interval (
        edit_task k.kube_client.get_stateful_set k.kube_client.update_stateful_set change
          s.namespace s.name)

  -- `ScaleSharedAppsToZero`
  unfoldable pub scale_shared_apps_to_zero : Action W (Unit {0})
  unfolding edit_deployments edit_stateful_sets scale_deployment scale_stateful_set
  scale_shared_apps_to_zero = do
    apps ← get_px_shared_apps k
    edit_deployments scale_deployment apps.0
    edit_stateful_sets scale_stateful_set apps.1

  -- `RestoreScaledAppsReplicas`
  unfoldable pub restore_scaled_apps_replicas : (String → IntOrString) → Action W (Unit {0})
  unfolding edit_deployments edit_stateful_sets restore_app
  restore_scaled_apps_replicas parse = do
    apps ← get_px_shared_apps k
    edit_deployments (restore_app parse) apps.0
    edit_stateful_sets (restore_app parse) apps.1
