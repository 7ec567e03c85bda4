-- ===== src/Apis/Cells.antt =====
-- What one address of the memory holds.
use talisman.Common.{String, Option, none, some, List}
use talisman.Go.Memory.{Ref, M}
use talisman.Apis.External.{External}
use talisman.Apis.V1beta1.{
  LabelSelectorRequirement, VolumePlacementRule, VolumePlacementSpec, VolumePlacementStrategy,
  ListOf, KvdbSpec, StorageSpec, Placement, PlacementSpec, ClusterSpec, Cluster, NodeStatus,
}
use talisman.Apis.V1beta2
use talisman.Apis.V1beta2.{CommonPlacementSpec, ReplicaPlacementSpec}

abbrev pub Placed : Type 0
Placed = Placement Ref Ref Ref Ref

abbrev pub ClusterFields : Type 0
ClusterFields = ClusterSpec (KvdbSpec Ref) (StorageSpec Ref) (PlacementSpec Placed) Ref

module _ (E : External) where
  abbrev pub Strategy : Type 0
  Strategy = VolumePlacementStrategy E.ObjectMeta (VolumePlacementSpec Ref)

  abbrev pub StrategyV1beta2 : Type 0
  StrategyV1beta2 = VolumePlacementStrategy E.ObjectMeta (V1beta2.VolumePlacementSpec Ref Ref)

  abbrev pub ClusterObject : Type 0
  ClusterObject = Cluster E.ObjectMeta ClusterFields

-- A struct, or the array of a slice.
pub data Cell (E : External) : Type 0 where
  strings : List String → Cell E
  refs : List Ref → Cell E
  requirement : LabelSelectorRequirement Ref → Cell E
  rules : List (VolumePlacementRule Ref) → Cell E
  strategy : Strategy E → Cell E
  strategies : List (Strategy E) → Cell E
  common : CommonPlacementSpec Ref → Cell E
  replica : ReplicaPlacementSpec Ref → Cell E
  strategy_v1beta2 : StrategyV1beta2 E → Cell E
  strategies_v1beta2 : List (StrategyV1beta2 E) → Cell E
  node_statuses : List NodeStatus → Cell E
  env_vars : List E.EnvVar → Cell E
  tolerations : List E.Toleration → Cell E
  node_affinity : E.NodeAffinity → Cell E
  pod_affinity : E.PodAffinity → Cell E
  pod_anti_affinity : E.PodAntiAffinity → Cell E
  cluster : ClusterObject E → Cell E
  clusters : List (ClusterObject E) → Cell E
  list : ListOf Ref → Cell E
  part : E.Part → Cell E

-- The contents of a cell, if it is of the kind that is asked for.
module _ {E : External} where
  abbrev pub as_strings : Cell E → Option (List String)
  as_strings (strings x) = some x
  as_strings _ = none

  abbrev pub as_refs : Cell E → Option (List Ref)
  as_refs (refs x) = some x
  as_refs _ = none

  abbrev pub as_requirement : Cell E → Option (LabelSelectorRequirement Ref)
  as_requirement (requirement x) = some x
  as_requirement _ = none

  abbrev pub as_rules : Cell E → Option (List (VolumePlacementRule Ref))
  as_rules (rules x) = some x
  as_rules _ = none

  abbrev pub as_strategy : Cell E → Option (Strategy E)
  as_strategy (strategy x) = some x
  as_strategy _ = none

  abbrev pub as_strategies : Cell E → Option (List (Strategy E))
  as_strategies (strategies x) = some x
  as_strategies _ = none

  abbrev pub as_common : Cell E → Option (CommonPlacementSpec Ref)
  as_common (common x) = some x
  as_common _ = none

  abbrev pub as_replica : Cell E → Option (ReplicaPlacementSpec Ref)
  as_replica (replica x) = some x
  as_replica _ = none

  abbrev pub as_strategy_v1beta2 : Cell E → Option (StrategyV1beta2 E)
  as_strategy_v1beta2 (strategy_v1beta2 x) = some x
  as_strategy_v1beta2 _ = none

  abbrev pub as_strategies_v1beta2 : Cell E → Option (List (StrategyV1beta2 E))
  as_strategies_v1beta2 (strategies_v1beta2 x) = some x
  as_strategies_v1beta2 _ = none

  abbrev pub as_node_statuses : Cell E → Option (List NodeStatus)
  as_node_statuses (node_statuses x) = some x
  as_node_statuses _ = none

  abbrev pub as_env_vars : Cell E → Option (List E.EnvVar)
  as_env_vars (env_vars x) = some x
  as_env_vars _ = none

  abbrev pub as_tolerations : Cell E → Option (List E.Toleration)
  as_tolerations (tolerations x) = some x
  as_tolerations _ = none

  abbrev pub as_node_affinity : Cell E → Option (E.NodeAffinity)
  as_node_affinity (node_affinity x) = some x
  as_node_affinity _ = none

  abbrev pub as_pod_affinity : Cell E → Option (E.PodAffinity)
  as_pod_affinity (pod_affinity x) = some x
  as_pod_affinity _ = none

  abbrev pub as_pod_anti_affinity : Cell E → Option (E.PodAntiAffinity)
  as_pod_anti_affinity (pod_anti_affinity x) = some x
  as_pod_anti_affinity _ = none

  abbrev pub as_cluster : Cell E → Option (ClusterObject E)
  as_cluster (cluster x) = some x
  as_cluster _ = none

  abbrev pub as_clusters : Cell E → Option (List (ClusterObject E))
  as_clusters (clusters x) = some x
  as_clusters _ = none

  abbrev pub as_list : Cell E → Option (ListOf Ref)
  as_list (list x) = some x
  as_list _ = none

-- The copies of the types of Kubernetes: the functions `DeepCopyInto` that are not part of this
-- program, each giving what it writes into `out`.
pub record DeepCopies (E : External) : Type 0 where
  pub copy_object_meta : E.ObjectMeta → M (Cell E) E.ObjectMeta
  pub copy_env_var : E.EnvVar → M (Cell E) E.EnvVar
  pub copy_node_affinity : E.NodeAffinity → M (Cell E) E.NodeAffinity
  pub copy_pod_affinity : E.PodAffinity → M (Cell E) E.PodAffinity
  pub copy_pod_anti_affinity : E.PodAntiAffinity → M (Cell E) E.PodAntiAffinity
  pub copy_toleration : E.Toleration → M (Cell E) E.Toleration
