-- ===== src/Apis/Copy.antt =====
-- pkg/apis/portworx/v1beta1/zz_generated.deepcopy.go and the same file of v1beta2: the deep copies. A
-- function `copy_…` is `DeepCopyInto`: it is given what `in` points to and returns what `out` points to
-- afterwards; a `deep_copy_…` is `DeepCopy`, over pointers.
pub mod Models
pub mod Strategies
pub mod Clusters
pub mod Lists
use talisman.Common.{ℕ, String, false, none, some, List, [], ◌∷◌, map}
use talisman.Go.Memory.{Ref, M, pure, ◌>>=◌, ◌>>◌}
use talisman.Go.Memory.Copies.{copy_list, copy_ref}
use talisman.Apis.External.{External, ListMeta, zero_type_meta, zero_list_meta}
use talisman.Apis.V1beta1.{
  LabelSelectorRequirement, VolumePlacementRule, VolumePlacementSpec, ListOf, KvdbSpec, NodeNetwork,
  StorageSpec, PlacementSpec, StatusInfo, NodeStatus, ClusterStatus, zero_requirement, zero_rule,
}
use talisman.Apis.V1beta2
use talisman.Apis.V1beta2.{CommonPlacementSpec, ReplicaPlacementSpec, zero_common, zero_replica}
use talisman.Apis.Zero.{
  zero_node_status, zero_strategy, zero_strategy_v1beta2, zero_cluster, zero_list,
}
use talisman.Apis.Cells.{
  Placed, ClusterFields, Strategy, StrategyV1beta2, ClusterObject, Cell, DeepCopies, strings, refs,
  requirement, rules, strategy, strategies, common, replica, strategy_v1beta2, strategies_v1beta2,
  node_statuses, env_vars, tolerations, node_affinity, pod_affinity, pod_anti_affinity, cluster,
  clusters, list, as_strings, as_refs, as_requirement, as_rules, as_strategy, as_strategies,
  as_common, as_replica, as_strategy_v1beta2, as_strategies_v1beta2, as_node_statuses, as_env_vars,
  as_tolerations, as_node_affinity, as_pod_affinity, as_pod_anti_affinity, as_cluster, as_clusters,
  as_list,
}

-- `make([]T, len(*in))`
abbrev pub zeros : {A : Type 0} → A → List A → List A
zeros zero xs = map (λ _. zero) xs

module _ {E : External} where
  -- `copy(*out, *in)` into a new slice of texts
  abbrev pub copy_strings : Ref → M (Cell E) Ref
  copy_strings = copy_ref strings as_strings (zeros "") pure

  unfoldable pub copy_requirement :
      LabelSelectorRequirement Ref → M (Cell E) (LabelSelectorRequirement Ref)
  copy_requirement r = do vs ← copy_strings r.values; pure (record r { values = vs })

  unfoldable pub deep_copy_requirement : Ref → M (Cell E) Ref
  deep_copy_requirement =
      copy_ref requirement as_requirement (λ _. zero_requirement) copy_requirement

  -- A slice of pointers, those that are nil included.
  abbrev pub copy_pointers : (Ref → M (Cell E) Ref) → Ref → M (Cell E) Ref
  copy_pointers copy = copy_ref refs as_refs (zeros none) (copy_list copy)

  unfoldable pub copy_rule : VolumePlacementRule Ref → M (Cell E) (VolumePlacementRule Ref)
  copy_rule r = do
    es ← copy_pointers deep_copy_requirement r.match_expressions
    pure (record r { match_expressions = es })

  abbrev pub copy_rules : Ref → M (Cell E) Ref
  copy_rules = copy_ref rules as_rules (zeros zero_rule) (copy_list copy_rule)

  unfoldable pub copy_placement_spec_v1beta1 :
      VolumePlacementSpec Ref → M (Cell E) (VolumePlacementSpec Ref)
  copy_placement_spec_v1beta1 s = do rs ← copy_rules s.rules; pure (record s { rules = rs })

  unfoldable pub copy_common : CommonPlacementSpec Ref → M (Cell E) (CommonPlacementSpec Ref)
  copy_common c = do
    es ← copy_pointers deep_copy_requirement c.match_expressions
    pure (record c { match_expressions = es })

  unfoldable pub copy_replica : ReplicaPlacementSpec Ref → M (Cell E) (ReplicaPlacementSpec Ref)
  copy_replica r = do c ← copy_common r.common; pure (record r { common = c })

  unfoldable pub deep_copy_common : Ref → M (Cell E) Ref
  deep_copy_common = copy_ref common as_common (λ _. zero_common) copy_common

  unfoldable pub deep_copy_replica : Ref → M (Cell E) Ref
  deep_copy_replica = copy_ref replica as_replica (λ _. zero_replica) copy_replica

  unfoldable pub copy_placement_spec_v1beta2 :
      V1beta2.VolumePlacementSpec Ref Ref → M (Cell E) (V1beta2.VolumePlacementSpec Ref Ref)
  copy_placement_spec_v1beta2 s = do
    ra ← copy_pointers deep_copy_replica s.replica_affinity
    raa ← copy_pointers deep_copy_replica s.replica_anti_affinity
    va ← copy_pointers deep_copy_common s.volume_affinity
    vaa ← copy_pointers deep_copy_common s.volume_anti_affinity
    pure (record {
      replica_affinity = ra;
      replica_anti_affinity = raa;
      volume_affinity = va;
      volume_anti_affinity = vaa;
    })

  unfoldable pub copy_kvdb_spec : KvdbSpec Ref → M (Cell E) (KvdbSpec Ref)
  copy_kvdb_spec k = do es ← copy_strings k.endpoints; pure (record k { endpoints = es })

  -- The structs without pointers are assigned.
  abbrev pub copy_node_network : NodeNetwork → M (Cell E) NodeNetwork
  copy_node_network n = pure n

  abbrev pub copy_status_info : StatusInfo → M (Cell E) StatusInfo
  copy_status_info i = pure i

  abbrev pub copy_node_status : NodeStatus → M (Cell E) NodeStatus
  copy_node_status s = pure s

  unfoldable pub copy_storage_spec : StorageSpec Ref → M (Cell E) (StorageSpec Ref)
  copy_storage_spec s = do ds ← copy_strings s.devices; pure (record s { devices = ds })

  unfoldable pub copy_cluster_status : ClusterStatus Ref → M (Cell E) (ClusterStatus Ref)
  copy_cluster_status s = do
    ns ← copy_ref node_statuses as_node_statuses (zeros zero_node_status) pure s.node_statuses
    pure (record s { node_statuses = ns })

  -- `out.ListMeta = in.ListMeta`, and then the items: the three lists, by the copy of their items.
  abbrev pub copy_items : (Ref → M (Cell E) Ref) → ListOf Ref → M (Cell E) (ListOf Ref)
  copy_items copy l = do items ← copy l.items; pure (record l { items = items })

module _ {E : External} (D : DeepCopies E) where
  unfoldable pub copy_strategy : Strategy E → M (Cell E) (Strategy E)
  unfolding copy_placement_spec_v1beta1
  copy_strategy s = do
    m ← D.copy_object_meta s.object_meta
    spec ← copy_placement_spec_v1beta1 s.spec
    pure (record s { object_meta = m; spec = spec })

  unfoldable pub copy_strategy_v1beta2 : StrategyV1beta2 E → M (Cell E) (StrategyV1beta2 E)
  unfolding copy_placement_spec_v1beta2
  copy_strategy_v1beta2 s = do
    m ← D.copy_object_meta s.object_meta
    spec ← copy_placement_spec_v1beta2 s.spec
    pure (record s { object_meta = m; spec = spec })

  abbrev pub copy_node_affinities : Ref → M (Cell E) Ref
  copy_node_affinities =
      copy_ref node_affinity as_node_affinity (λ _. E.zero_node_affinity) D.copy_node_affinity

  abbrev pub copy_pod_affinities : Ref → M (Cell E) Ref
  copy_pod_affinities =
      copy_ref pod_affinity as_pod_affinity (λ _. E.zero_pod_affinity) D.copy_pod_affinity

  abbrev pub copy_pod_anti_affinities : Ref → M (Cell E) Ref
  copy_pod_anti_affinities =
      copy_ref pod_anti_affinity as_pod_anti_affinity (λ _. E.zero_pod_anti_affinity)
        D.copy_pod_anti_affinity

  abbrev pub copy_tolerations : Ref → M (Cell E) Ref
  copy_tolerations =
      copy_ref tolerations as_tolerations (zeros E.zero_toleration) (copy_list D.copy_toleration)

  abbrev pub copy_env : Ref → M (Cell E) Ref
  copy_env = copy_ref env_vars as_env_vars (zeros E.zero_env_var) (copy_list D.copy_env_var)

  unfoldable pub copy_placement : Placed → M (Cell E) Placed
  copy_placement p = do
    na ← copy_node_affinities p.node_affinity
    pa ← copy_pod_affinities p.pod_affinity
    paa ← copy_pod_anti_affinities p.pod_anti_affinity
    ts ← copy_tolerations p.tolerations
    pure (record p {
      node_affinity = na;
      pod_affinity = pa;
      pod_anti_affinity = paa;
      tolerations = ts;
    })

  unfoldable pub copy_placements : PlacementSpec Placed → M (Cell E) (PlacementSpec Placed)
  copy_placements s = do px ← copy_placement s.px; pure (record s { px = px })

  unfoldable pub copy_cluster_spec : ClusterFields → M (Cell E) ClusterFields
  unfolding copy_kvdb_spec copy_storage_spec copy_placements
  copy_cluster_spec s = do
    k ← copy_kvdb_spec s.kvdb
    st ← copy_storage_spec s.storage
    pl ← copy_placements s.placement
    env ← copy_env s.env
    pure (record s { kvdb = k; storage = st; placement = pl; env = env })

  unfoldable pub copy_cluster : ClusterObject E → M (Cell E) (ClusterObject E)
  unfolding copy_cluster_spec
  copy_cluster c = do
    m ← D.copy_object_meta c.object_meta
    spec ← copy_cluster_spec c.spec
    pure (record c { object_meta = m; spec = spec })

  -- `DeepCopy` of the objects
  unfoldable pub deep_copy_strategy : Ref → M (Cell E) Ref
  unfolding copy_strategy
  deep_copy_strategy = copy_ref strategy as_strategy (λ _. zero_strategy E) copy_strategy

  unfoldable pub deep_copy_strategy_v1beta2 : Ref → M (Cell E) Ref
  unfolding copy_strategy_v1beta2
  deep_copy_strategy_v1beta2 =
      copy_ref strategy_v1beta2 as_strategy_v1beta2 (λ _. zero_strategy_v1beta2 E)
        copy_strategy_v1beta2

  unfoldable pub deep_copy_cluster : Ref → M (Cell E) Ref
  unfolding copy_cluster
  deep_copy_cluster = copy_ref cluster as_cluster (λ _. zero_cluster E) copy_cluster

  unfoldable pub copy_strategy_list : ListOf Ref → M (Cell E) (ListOf Ref)
  unfolding copy_strategy
  copy_strategy_list =
      copy_items
        (copy_ref strategies as_strategies (zeros (zero_strategy E)) (copy_list copy_strategy))

  unfoldable pub copy_strategy_v1beta2_list : ListOf Ref → M (Cell E) (ListOf Ref)
  unfolding copy_strategy_v1beta2
  copy_strategy_v1beta2_list = copy_items (
      copy_ref strategies_v1beta2 as_strategies_v1beta2 (zeros (zero_strategy_v1beta2 E))
        (copy_list copy_strategy_v1beta2))

  unfoldable pub copy_cluster_list : ListOf Ref → M (Cell E) (ListOf Ref)
  unfolding copy_cluster
  copy_cluster_list =
      copy_items (copy_ref clusters as_clusters (zeros (zero_cluster E)) (copy_list copy_cluster))

module _ {E : External} where
  -- `DeepCopy` of a list, by its `DeepCopyInto`
  unfoldable pub deep_copy_list : (ListOf Ref → M (Cell E) (ListOf Ref)) → Ref → M (Cell E) Ref
  deep_copy_list copy = copy_ref list as_list (λ _. zero_list) copy

  abbrev pub as_object : Ref → M (Cell E) Ref
  as_object (some c) = pure (some c)
  as_object none = pure none

  -- `DeepCopyObject`, by `DeepCopy`
  unfoldable pub deep_copy_object : (Ref → M (Cell E) Ref) → Ref → M (Cell E) Ref
  deep_copy_object deep_copy r = do c ← deep_copy r; as_object c
