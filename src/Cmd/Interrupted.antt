-- ===== src/Cmd/Interrupted.antt =====
-- The operation of the command line that restores the applications.
use talisman.Common.{◌≡◌, []}
use talisman.Go.Results.{Result, ok, err, panic, raise, wrapped, handle}
use talisman.Go.Retry.{IsRetry}
use talisman.K8sutils.Instance.{Instance}
use talisman.K8sutils.Scaling.ChangeLaws.{IsDistinct}
use talisman.K8sutils.Scaling.Memory.{ReadsCounts}
use talisman.K8sutils.Scaling.Store.{View, Same, IsAppStore}
use talisman.K8sutils.Scaling.Listing.{Inventory, IsListed, shared_stateful_sets}
use talisman.K8sutils.Scaling.Tasks.{scale_shared_apps_to_zero, restore_scaled_apps_replicas}
use talisman.K8sutils.Scaling.Cluster.{GivesBack, AreFresh, restore_scaled_apps_replicas-GivesBack}
use talisman.Cmd.{Flags, Libraries, main, do_restore_shared_apps}

module _ {W : Type 0} (view : View W) (lib : Libraries W) (flags : Flags) (k : Instance W)
    (i : Inventory) (is_retry : IsRetry lib.retrier) (store : IsAppStore view k.kube_client)
    (listed : IsListed view k i) (reads : ReadsCounts lib.parse) where
  -- Where an upgrade has scaled the applications down and then was cut off without changing them, the
  -- program that is run with the operation "restoresharedapps" gives, if it succeeds, every
  -- application back as it was before the upgrade. The shared applications must have had annotations,
  -- and no count kept in them, no stateful set may be listed twice, and no update of a stateful set may
  -- have been carried out although it returned an error; one of a deployment may have been.
  pub main-GivesBack :
      (w w₁ w₁' : W)
      → IsDistinct (shared_stateful_sets i)
      → AreFresh view i w
      → scale_shared_apps_to_zero lib.retrier k w ≡ (ok tt, w₁)
      → Same view w₁ w₁'
      → flags.op ≡ "restoresharedapps"
      → lib.new_utils flags.kubeconfig w₁' ≡ (ok k, w₁')
      → GivesBack view w (main lib flags w₁')
  unfolding main do_restore_shared_apps
  main-GivesBack w w₁ w₁' distinct fresh scaled same op utils = rw op (
      rw utils (
        go (restore_scaled_apps_replicas lib.retrier k lib.parse w₁') (
          restore_scaled_apps_replicas-GivesBack view lib.retrier is_retry k i store listed
            lib.parse reads w w₁ w₁' distinct fresh scaled same)))
    where
      go :
          (o : Result (Unit {0}) × W)
          → GivesBack view w o
          → GivesBack view w
              (handle (λ e. raise (wrapped "failed to restore shared apps. err: %v" [] e)) o.0 o.1)
      go (ok _, w₂) h = h
      go (err _, w₂) h = tt
      go (panic _, w₂) h = tt
