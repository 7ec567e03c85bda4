-- ===== src/Px/Wiper/Cleaned.antt =====
-- The deferred deletion of the daemon set that is run.
use talisman.Common.{ℕ, ◌≡◌, Bool, false, some}
use talisman.Go.Results.{Result, ok, err, panic, is_over, handle, pure}
use talisman.Go.Retry.{Retrier}
use talisman.Kube.Objects.{DaemonSet}
use talisman.Kube.Presence.{daemon_set, Object, object, same_object, Removed, Removes}
use talisman.Px.Ops.{PxClusterOps}
use talisman.Px.Wiper.{create_and_validate}

module _ {W : Type 0} (has : W → Object → Bool) (R : Retrier) (ops : PxClusterOps W)
    (removes : (made : DaemonSet)
      → let x = object daemon_set made.namespace made.name in
        Removes has x
          (same_object x)
          (ops.k8s_apps.delete_daemon_set made.name made.namespace)) where
  -- If the daemon set has been created, then it is deleted at the end, whether its validation has
  -- succeeded, failed or panicked, unless the validation panicked in another goroutine, which
  -- ends the process: where the answer to that deletion is a success or says that the daemon set
  -- is not found, it is absent afterwards, and nothing else has been removed by it.
  pub create_and_validate-Removed :
      (ds made : DaemonSet) (timeout : ℕ) (w w₁ : W)
      → ops.k8s_apps.create_daemon_set ds w ≡ ((ok tt, some made), w₁)
      → is_over (ops.k8s_apps.validate_daemon_set made.name made.namespace timeout w₁).0 ≡ false
      → let x = object daemon_set made.namespace made.name in
        let w₂ = (ops.k8s_apps.validate_daemon_set made.name made.namespace timeout w₁).1 in
        let answer = (ops.k8s_apps.delete_daemon_set made.name made.namespace w₂).0 in
        Removed has x (same_object x) w₂ (answer, (create_and_validate R ops ds timeout w).1)
  create_and_validate-Removed ds made timeout w w₁ created lives =
      rw created (
        rw lives
          (go (ops.k8s_apps.delete_daemon_set made.name made.namespace w₂) (removes made w₂)))
    where
      x : Object
      x = object daemon_set made.namespace made.name

      w₂ : W
      w₂ = (ops.k8s_apps.validate_daemon_set made.name made.namespace timeout w₁).1

      go :
          (o : Result (Unit {0}) × W)
          → Removed has x (same_object x) w₂ o
          → Removed has x (same_object x) w₂ (o.0, (handle (λ _. pure tt) o.0 o.1).1)
      go (ok _, w₃) h = h
      go (err _, w₃) h = h
      go (panic _, w₃) h = h
