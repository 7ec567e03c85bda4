-- ===== src/Px/Rollout/Observed.antt =====
-- pkg/cluster/px/px.go: the success of the wait for the generation of a daemon set.
use talisman.Common.{ℕ, String, ◌≡◌, refl, inl, inr, eqb, List, arith, Bool-cases}
use talisman.Go.Results.{Result, ok, err, panic}
use talisman.Go.Retry.{again, Retrier, IsRetry, Keeps, Attempts-inv, after_call}
use talisman.Kube.Objects.{DaemonSet}
use talisman.Px.Ops.{PxClusterOps}
use talisman.Px.Rollout.Wait.{expected_generation, compare_generation, generation_task}

module _ {W : Type 0} (ops : PxClusterOps W) (expected : List (String × ℕ)) (ds : DaemonSet) where
  -- The last read of the daemon set has returned the expected generation.
  abbrev pub Observed : Result (Unit {0}) → W → Type 0
  Observed (ok _) w =
      (before : W) × (updated : DaemonSet) × (ops.k8s_apps.get_daemon_set ds.name ds.namespace
          before
        ≡ (ok updated, w))
      × (updated.observed_generation ≡ expected_generation expected ds)
  Observed (err _) w = Unit
  Observed (panic _) w = Unit

  generation_task-Keeps : (w : W) → Keeps (λ _. Unit) Observed (generation_task ops expected ds w)
  unfolding generation_task
  generation_task-Keeps w = go (ops.k8s_apps.get_daemon_set ds.name ds.namespace w).0 _ refl
    where
      go :
          (r : Result DaemonSet) (w' : W)
          → ops.k8s_apps.get_daemon_set ds.name ds.namespace w ≡ (r, w')
          → Keeps (λ _. Unit) Observed (after_call again (compare_generation ops expected ds) r w')
      go (ok updated) w' e =
          elim (Bool-cases (eqb updated.observed_generation (expected_generation expected ds))) [
            | inl same ↦ rw same (w, updated, e, ground (arith, same))
            | inr other ↦ rw other tt
          ]
      go (err _) w' e = tt
      go (panic _) w' e = tt

  -- If the wait for a daemon set succeeds, then the last read of it has returned the generation that
  -- was expected.
  pub generation_task-Observed :
      (R : Retrier)
      → IsRetry R
      → (timeout interval : ℕ) (w : W)
      → let (r, w') = R.retry W timeout interval (generation_task ops expected ds) w in
        Observed r w'
  generation_task-Observed R is_retry timeout interval w =
      Attempts-inv (λ _. Unit) Observed (generation_task ops expected ds)
        (λ w' _. generation_task-Keeps w') (λ _ _. tt)
        (is_retry W timeout interval (generation_task ops expected ds) w) tt
