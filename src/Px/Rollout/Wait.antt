-- ===== src/Px/Rollout/Wait.antt =====
-- pkg/cluster/px/px.go: the task of `upgradePX` that waits for the generation of a daemon set.
use talisman.Common.{ℕ, eqb, Option, none, some, String, List, [], ◌∷◌, lookup, if◌then◌else◌}
use talisman.Go.Results.{Error, errorf}
use talisman.Go.Retry.{done, again, Task, call}
use talisman.Go.Numbers.{pos, sprint_int}
use talisman.Kube.Objects.{DaemonSet}
use talisman.Px.Ops.{PxClusterOps}

-- The generation that is expected of a daemon set, 0 if none was recorded.
abbrev pub generation_or_zero : Option ℕ → ℕ
generation_or_zero none = 0
generation_or_zero (some n) = n

abbrev pub expected_generation : List (String × ℕ) → DaemonSet → ℕ
expected_generation expected ds = generation_or_zero (lookup ds.uid expected)

module _ {W : Type 0} (ops : PxClusterOps W) (expected : List (String × ℕ)) (ds : DaemonSet) where
  abbrev pub still_running : DaemonSet → Error
  still_running updated =
      errorf "PX daemonset: [%s] %s still running previous generation: %d. Expected generation: %d"
        (ds.namespace
          ∷ ds.name
          ∷ sprint_int (pos updated.observed_generation)
          ∷ sprint_int (pos (expected_generation expected ds))
          ∷ [])

  abbrev pub compare_generation : DaemonSet → Task W
  compare_generation updated w = (
    if eqb updated.observed_generation (expected_generation expected ds)
        then done
        else again (still_running updated),
    w,
  )

  unfoldable pub generation_task : Task W
  generation_task = call (ops.k8s_apps.get_daemon_set ds.name ds.namespace) again compare_generation
