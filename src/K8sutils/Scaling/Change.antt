-- ===== src/K8sutils/Scaling/Change.antt =====
-- pkg/k8sutils/k8sutils.go: what the tasks of `ScaleSharedAppsToZero` and
-- `RestoreScaledAppsReplicas` make of an application that they have read.
use talisman.Common.{String, ◌==◌, [], ◌∷◌, none, some, lookup, insert, erase, if◌then◌else◌}
use talisman.Go.Results.{Error, errorf, Panic, nil_map, nil_pointer}
use talisman.Go.Numbers.{ℤ, pos, is_zero, sprint_int}
use talisman.Kube.Objects.{Labels, Workload}
use talisman.K8sutils.Instance.{replica_memory_key}

-- No update, an update, an error for which a retry is no help, or a panic.
pub data Change : Type 0 where
  keep : Change
  put : Workload → Change
  refuse : Error → Change
  crash_with : Panic → Change

-- `Annotations[replicaMemoryKey] = fmt.Sprintf("%d", *Spec.Replicas); Spec.Replicas = &valZero`.
-- A write into a nil map panics.
unfoldable pub remember : Workload → ℤ → Change
remember d r = elim (d.annotations) [
  | none ↦ crash_with nil_map
  | some m ↦ put (record d {
    annotations = some (insert replica_memory_key (sprint_int r) m);
    replicas = some (pos 0);
  })
]

-- A deployment that is at 0 already is left alone.
unfoldable pub scale_deployment : Workload → Change
unfolding remember
scale_deployment d = elim (d.replicas) [
  | none ↦ crash_with nil_pointer
  | some r ↦ if is_zero r then keep else remember d r
]

-- A stateful set is written whatever its replicas are.
unfoldable pub scale_stateful_set : Workload → Change
unfolding remember
scale_stateful_set s = elim (s.replicas) [ none ↦ crash_with nil_pointer | some r ↦ remember s r ]

-- `intstr.IntOrString`
pub data IntOrString : Type 0 where
  int : ℤ → IntOrString
  str : String → IntOrString

-- The end of the task, once a count is parsed; `parse` is `intstr.Parse`.
unfoldable pub restore_count : Workload → Labels → String → IntOrString → Change
restore_count d m val (str _) = refuse (errorf "failed to parse saved replica count: %v" (val ∷ []))
restore_count d m val (int z) =
    put (record d { annotations = some (erase replica_memory_key m); replicas = some z })

-- The task of both kinds of applications.
unfoldable pub restore_app : (String → IntOrString) → Workload → Change
unfolding restore_count
restore_app parse d = elim (d.annotations) [
  | none ↦ keep
  | some m ↦ elim (lookup replica_memory_key m) [
    | none ↦ keep
    | some val ↦ if val == "" then keep else restore_count d m val (parse val)
  ]
]

-- The application after the change, if it went through.
abbrev pub changed : Change → Workload → Workload
changed keep d = d
changed (put d') d = d'
changed (refuse e) d = d
changed (crash_with p) d = d
