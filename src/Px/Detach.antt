-- ===== src/Px/Detach.antt =====
-- pkg/cluster/px/px.go: `waitTillPXSharedVolumesDetached`.
pub mod Detached
pub mod Progress
use talisman.Common.{String, Bool, List, [], ◌∷◌, if◌then◌else◌}
use talisman.Go.Results.{errorf, Action, pure, ◌>>=◌, gather}
use talisman.Go.Retry.{Attempt, done, again, Task, call, Retrier}
use talisman.Openstorage.{DriverVolume, VolumeDriver}
use talisman.K8sutils.Instance.{default_retry_interval}
use talisman.K8sutils.Apps.{get_px_shared_scs}
use talisman.Px.Names.{shared_vol_detach_timeout}
use talisman.Px.Ops.{PxClusterOps}

-- The first volume that is attached makes the task try again.
unfoldable pub check_detached : List DriverVolume → Attempt
check_detached [] = done
check_detached (v ∷ vols) =
    let rest = check_detached vols in
    if v.is_attached then again (errorf "volume: %s is still attached" (v.name ∷ [])) else rest

module _ {W : Type 0} (ops : PxClusterOps W) where
  -- The volumes of the claims that use the shared storage classes.
  unfoldable pub volumes_to_inspect : Action W (List String)
  unfolding get_px_shared_scs gather
  volumes_to_inspect = do
    scs ← get_px_shared_scs ops.utils
    gather scs λ sc. do
      pvcs ← ops.core_ops.get_pvcs_using_storage_class sc
      gather pvcs
          λ pvc. do pv ← ops.core_ops.get_volume_for_persistent_volume_claim pvc; pure (pv ∷ [])

  unfoldable pub detach_task : VolumeDriver W → List String → Task W
  unfolding check_detached
  detach_task driver vols = call (driver.inspect vols) again λ found w. (check_detached found, w)

  -- `waitTillPXSharedVolumesDetached`
  unfoldable pub wait_till_px_shared_volumes_detached :
      Retrier → VolumeDriver W → Action W (Unit {0})
  unfolding volumes_to_inspect detach_task
  wait_till_px_shared_volumes_detached R driver = do
    vols ← volumes_to_inspect
    R.retry W shared_vol_detach_timeout default_retry_interval (detach_task driver vols)
