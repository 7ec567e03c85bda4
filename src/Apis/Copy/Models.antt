-- ===== src/Apis/Copy/Models.antt =====
-- The values that the API types in memory stand for: a nil slice is no list, a nil pointer no value.
use talisman.Common.{ℕ, String, Bool, Option, List}
use talisman.Go.Memory.{Ref}
use talisman.Go.Memory.Models.{Model, plain, list_model, ref_model}
use talisman.Go.Memory.Copies.{Copies}
use talisman.Go.Memory.Structs.{pair_model, via_model}
use talisman.Apis.External.{External, TypeMeta}
use talisman.Apis.V1beta1.{
  LabelSelectorRequirement, VolumePlacementRule, VolumePlacementSpec, VolumePlacementStrategy,
  KvdbSpec, NodeNetwork, StorageSpec, Placement, PlacementSpec, ClusterSpec, Cluster,
}
use talisman.Apis.V1beta2
use talisman.Apis.V1beta2.{CommonPlacementSpec, ReplicaPlacementSpec}
use talisman.Apis.Cells.{Cell, DeepCopies, strings, refs, requirement, rules, common, replica}

abbrev pub Texts : Type 0
Texts = Option (List String)

abbrev pub RequirementValue : Type 0
RequirementValue = LabelSelectorRequirement Texts

abbrev pub Requirements : Type 0
Requirements = Option (List (Option RequirementValue))

abbrev pub RuleValue : Type 0
RuleValue = VolumePlacementRule Requirements

abbrev pub SpecValue : Type 0
SpecValue = VolumePlacementSpec (Option (List RuleValue))

abbrev pub CommonValue : Type 0
CommonValue = CommonPlacementSpec Requirements

abbrev pub ReplicaValue : Type 0
ReplicaValue = ReplicaPlacementSpec Requirements

abbrev pub SpecV1beta2Value : Type 0
SpecV1beta2Value =
    V1beta2.VolumePlacementSpec (Option (List (Option ReplicaValue)))
      (Option (List (Option CommonValue)))

-- What the structs are made of: the fields without pointers, and the others.
abbrev pub requirement_parts : {S : Type 0} → LabelSelectorRequirement S → (String × String) × S
requirement_parts r = ((r.key, r.operator), r.values)

abbrev pub rule_parts : {S : Type 0} → VolumePlacementRule S → (ℕ × ℕ × String × String) × S
rule_parts r = ((r.affected_replicas, r.weight, r.enforcement, r.rule_type), r.match_expressions)

abbrev pub rules_part : {S : Type 0} → VolumePlacementSpec S → S
rules_part s = s.rules

abbrev pub common_parts : {S : Type 0} → CommonPlacementSpec S → (ℕ × String × String) × S
common_parts c = ((c.weight, c.enforcement, c.topology_key), c.match_expressions)

abbrev pub replica_parts : {S : Type 0} → ReplicaPlacementSpec S → ℕ × CommonPlacementSpec S
replica_parts r = (r.affected_replicas, r.common)

abbrev pub spec_v1beta2_parts : {R C : Type 0} → V1beta2.VolumePlacementSpec R C → (R × R) × (C × C)
spec_v1beta2_parts s =
    ((s.replica_affinity, s.replica_anti_affinity), (s.volume_affinity, s.volume_anti_affinity))

abbrev pub strategy_parts : {A S : Type 0} → VolumePlacementStrategy A S → (TypeMeta × A) × S
strategy_parts s = ((s.type_meta, s.object_meta), s.spec)

abbrev pub kvdb_parts : {S : Type 0} → KvdbSpec S → (String × String × String) × S
kvdb_parts k = ((k.basic_auth_secret, k.certificate_secret, k.acl_token_secret), k.endpoints)

abbrev pub storage_parts : {S : Type 0} → StorageSpec S → (Bool × Bool × Bool × Bool) × S
storage_parts s = ((s.zero_storage, s.force, s.use_all, s.use_all_with_partitions), s.devices)

abbrev pub placement_parts : {N P A T : Type 0} → Placement N P A T → (TypeMeta × N) × (P × (A × T))
placement_parts p =
    ((p.type_meta, p.node_affinity), (p.pod_affinity, (p.pod_anti_affinity, p.tolerations)))

abbrev pub placements_parts : {P : Type 0} → PlacementSpec P → TypeMeta × P
placements_parts s = (s.type_meta, s.px)

abbrev pub cluster_spec_parts :
    {K S P V : Type 0}
    → ClusterSpec K S P V
    → ((String × String × String × String × NodeNetwork) × K) × (S × (P × V))
cluster_spec_parts s = (
  ((s.px_image, s.px_tag, s.oci_mon_image, s.oci_mon_tag, s.network), s.kvdb),
  (s.storage, (s.placement, s.env)),
)

abbrev pub cluster_parts : {A S : Type 0} → Cluster A S → (TypeMeta × A) × S
cluster_parts c = ((c.type_meta, c.object_meta), c.spec)

module _ (E : External) where
  abbrev pub strings_model : Model (Cell E) Ref Texts
  strings_model = ref_model strings plain

  abbrev pub requirement_model : Model (Cell E) (LabelSelectorRequirement Ref) RequirementValue
  requirement_model = via_model requirement_parts requirement_parts (pair_model plain strings_model)

  -- A slice of pointers.
  abbrev pub pointers_model :
      {V : Type 0} → Model (Cell E) Ref V → Model (Cell E) Ref (Option (List V))
  pointers_model D = ref_model refs (list_model D)

  abbrev pub requirements_model : Model (Cell E) Ref Requirements
  requirements_model = pointers_model (ref_model requirement requirement_model)

  abbrev pub rule_model : Model (Cell E) (VolumePlacementRule Ref) RuleValue
  rule_model = via_model rule_parts rule_parts (pair_model plain requirements_model)

  abbrev pub spec_model : Model (Cell E) (VolumePlacementSpec Ref) SpecValue
  spec_model = via_model rules_part rules_part (ref_model rules (list_model rule_model))

  abbrev pub common_model : Model (Cell E) (CommonPlacementSpec Ref) CommonValue
  common_model = via_model common_parts common_parts (pair_model plain requirements_model)

  abbrev pub replica_model : Model (Cell E) (ReplicaPlacementSpec Ref) ReplicaValue
  replica_model = via_model replica_parts replica_parts (pair_model plain common_model)

  abbrev pub replicas_model : Model (Cell E) Ref (Option (List (Option ReplicaValue)))
  replicas_model = pointers_model (ref_model replica replica_model)

  abbrev pub commons_model : Model (Cell E) Ref (Option (List (Option CommonValue)))
  commons_model = pointers_model (ref_model common common_model)

  abbrev pub spec_v1beta2_model :
      Model (Cell E) (V1beta2.VolumePlacementSpec Ref Ref) SpecV1beta2Value
  spec_v1beta2_model = via_model spec_v1beta2_parts spec_v1beta2_parts (
      pair_model (pair_model replicas_model replicas_model)
        (pair_model commons_model commons_model))

  abbrev pub kvdb_model : Model (Cell E) (KvdbSpec Ref) (KvdbSpec Texts)
  kvdb_model = via_model kvdb_parts kvdb_parts (pair_model plain strings_model)

  abbrev pub storage_model : Model (Cell E) (StorageSpec Ref) (StorageSpec Texts)
  storage_model = via_model storage_parts storage_parts (pair_model plain strings_model)

  abbrev pub PlacedValue : Type 0
  PlacedValue =
      Placement (Option E.NodeAffinityValue) (Option E.PodAffinityValue)
        (Option E.PodAntiAffinityValue) (Option (List E.TolerationValue))

  abbrev pub ClusterFieldsValue : Type 0
  ClusterFieldsValue =
      ClusterSpec (KvdbSpec Texts) (StorageSpec Texts) (PlacementSpec PlacedValue)
        (Option (List E.EnvVarValue))

  -- What the types of Kubernetes in memory stand for, and that their copies are deep.
  pub record IsDeep (D : DeepCopies E) : Type 1 where
    pub object_meta_model : Model (Cell E) E.ObjectMeta E.ObjectMetaValue
    pub env_var_model : Model (Cell E) E.EnvVar E.EnvVarValue
    pub node_affinity_model : Model (Cell E) E.NodeAffinity E.NodeAffinityValue
    pub pod_affinity_model : Model (Cell E) E.PodAffinity E.PodAffinityValue
    pub pod_anti_affinity_model : Model (Cell E) E.PodAntiAffinity E.PodAntiAffinityValue
    pub toleration_model : Model (Cell E) E.Toleration E.TolerationValue
    pub object_meta_copies : Copies object_meta_model D.copy_object_meta
    pub env_var_copies : Copies env_var_model D.copy_env_var
    pub node_affinity_copies : Copies node_affinity_model D.copy_node_affinity
    pub pod_affinity_copies : Copies pod_affinity_model D.copy_pod_affinity
    pub pod_anti_affinity_copies : Copies pod_anti_affinity_model D.copy_pod_anti_affinity
    pub toleration_copies : Copies toleration_model D.copy_toleration
