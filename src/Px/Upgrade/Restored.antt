-- ===== src/Px/Upgrade/Restored.antt =====
-- The deferred restoring of the applications at the end of an upgrade.
use talisman.Common.{String, ◌≡◌, inl, inr, Bool, true, false, Bool-cases, Option}
use talisman.Go.Results.{Result, ok, err, panic, is_over, Action, ◌>>◌, handle, pure}
use talisman.Go.Retry.{Retrier, IsRetry}
use talisman.Api.{ClusterSpec}
use talisman.Openstorage.{VolumeDriver}
use talisman.K8sutils.Scaling.Change.{IntOrString}
use talisman.K8sutils.Scaling.ChangeLaws.{IsDistinct}
use talisman.K8sutils.Scaling.Memory.{ReadsCounts}
use talisman.K8sutils.Scaling.Store.{View, Same, IsAppStore}
use talisman.K8sutils.Scaling.Listing.{Inventory, IsListed, shared_stateful_sets}
use talisman.K8sutils.Scaling.Tasks.{scale_shared_apps_to_zero, restore_scaled_apps_replicas}
use talisman.K8sutils.Scaling.Cluster.{GivesBack, AreFresh, restore_scaled_apps_replicas-GivesBack}
use talisman.Px.Ops.{PxClusterOps, UpgradeOptions}
use talisman.Px.Detach.{wait_till_px_shared_volumes_detached}
use talisman.Px.Rollout.{upgrade_px}
use talisman.Px.Upgrade.{upgrade_scaled_down}
use talisman.Px.Upgrade.Quiet.{Quiet, then-Quiet}
use talisman.Px.Upgrade.Calls.{LeavesApps, wait-Quiet}
use talisman.Px.Upgrade.Rolling.{upgrade_px-Quiet}

-- The end of an upgrade: with the process, or with a restoring that has a result.
abbrev pub Ended : {W : Type 0} → View W → W → W → Bool → Result (Unit {0}) → W → Type 0
Ended view w w₁ true restored w' = Same view w₁ w'
Ended view w w₁ false restored w' = GivesBack view w (restored, w')

module _ {W : Type 0} (view : View W) (R : Retrier) (is_retry : IsRetry R) (ops : PxClusterOps W)
    (driver : VolumeDriver W) (L : LeavesApps view ops driver) (i : Inventory)
    (store : IsAppStore view ops.utils.kube_client) (listed : IsListed view ops.utils i)
    (parse : String → IntOrString) (reads : ReadsCounts parse) where
  -- The wait for the volumes and the rolling upgrade.
  abbrev pub body : ClusterSpec → Option UpgradeOptions → Action W (Unit {0})
  body spec opts = wait_till_px_shared_volumes_detached ops R driver >> upgrade_px R ops spec opts

  -- Once the applications have been scaled down, every end of the upgrade, an error or a panic of its
  -- own goroutine included, is followed by the restoring; if that succeeds, then every application of
  -- the cluster is as it was before the upgrade. A panic of a retried task ends the process instead:
  -- then nothing is restored, and the applications stay as scaling down has left them. The shared
  -- applications must have had annotations, and no count kept in them, no stateful set may be listed
  -- twice, no update of a stateful set may have been carried out although it returned an error, and the
  -- other calls of the upgrade must leave the applications alone.
  pub upgrade_scaled_down-GivesBack :
      (spec : ClusterSpec) (opts : Option UpgradeOptions) (w w₁ : W)
      → IsDistinct (shared_stateful_sets i)
      → AreFresh view i w
      → scale_shared_apps_to_zero R ops.utils w ≡ (ok tt, w₁)
      → let ended = body spec opts w₁ in
        let restored = restore_scaled_apps_replicas R ops.utils parse ended.1 in
        Ended view w w₁
          (is_over ended.0)
          restored.0
          (upgrade_scaled_down R ops parse driver spec opts w).1
  unfolding upgrade_scaled_down
  upgrade_scaled_down-GivesBack spec opts w w₁ distinct fresh scaled =
      rw scaled (elim (Bool-cases (is_over (body spec opts w₁).0)) [
        | inl over ↦ rw over (quiet_body.quiet w₁)
        | inr lives ↦ rw lives (
            go (restore_scaled_apps_replicas R ops.utils parse w₂) (
              restore_scaled_apps_replicas-GivesBack view R is_retry ops.utils i store listed parse
                reads w w₁ w₂ distinct fresh scaled (quiet_body.quiet w₁)))
      ])
    where
      quiet_body : Quiet view (body spec opts)
      quiet_body =
          then-Quiet view _ _ (wait-Quiet view ops driver L R is_retry)
            λ _. upgrade_px-Quiet view ops driver L R is_retry spec opts

      w₂ : W
      w₂ = (body spec opts w₁).1

      go :
          (o : Result (Unit {0}) × W)
          → GivesBack view w o
          → GivesBack view w (o.0, (handle (λ _. pure tt) o.0 o.1).1)
      go (ok _, w₃) h = h
      go (err _, w₃) h = tt
      go (panic _, w₃) h = tt
