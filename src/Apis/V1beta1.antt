-- ===== src/Apis/V1beta1.antt =====
-- pkg/apis/portworx/v1beta1/types.go
use talisman.Common.{ℕ, String, Bool, none}
use talisman.Go.Memory.{Ref}
use talisman.Apis.External.{TypeMeta, ListMeta}

abbrev pub EnforcementType : Type 0
EnforcementType = String

abbrev pub enforcement_required : EnforcementType
enforcement_required = "required"

abbrev pub enforcement_preferred : EnforcementType
enforcement_preferred = "preferred"

abbrev pub AffinityRuleType : Type 0
AffinityRuleType = String

abbrev pub affinity : AffinityRuleType
affinity = "affinity"

abbrev pub anti_affinity : AffinityRuleType
anti_affinity = "antiAffinity"

abbrev pub LabelSelectorOperator : Type 0
LabelSelectorOperator = String

abbrev pub label_selector_op_in : LabelSelectorOperator
label_selector_op_in = "In"

abbrev pub label_selector_op_not_in : LabelSelectorOperator
label_selector_op_not_in = "NotIn"

abbrev pub label_selector_op_exists : LabelSelectorOperator
label_selector_op_exists = "Exists"

abbrev pub label_selector_op_does_not_exist : LabelSelectorOperator
label_selector_op_does_not_exist = "DoesNotExist"

abbrev pub label_selector_op_gt : LabelSelectorOperator
label_selector_op_gt = "Gt"

abbrev pub label_selector_op_lt : LabelSelectorOperator
label_selector_op_lt = "Lt"

-- An `int64` or `uint64` is its value modulo 2 ^ 64.
pub record LabelSelectorRequirement (Strings : Type 0) : Type 0 where
  pub key : String
  pub operator : LabelSelectorOperator
  pub values : Strings

pub record VolumePlacementRule (Requirements : Type 0) : Type 0 where
  pub affected_replicas : ℕ
  pub weight : ℕ
  pub enforcement : EnforcementType
  pub rule_type : AffinityRuleType
  pub match_expressions : Requirements

pub record VolumePlacementSpec (Rules : Type 0) : Type 0 where
  pub rules : Rules

-- The strategies of the two versions differ in their specification alone.
pub record VolumePlacementStrategy (Meta Spec : Type 0) : Type 0 where
  pub type_meta : TypeMeta
  pub object_meta : Meta
  pub spec : Spec

-- `ClusterList` and `VolumePlacementStrategyList`
pub record ListOf (Items : Type 0) : Type 0 where
  pub type_meta : TypeMeta
  pub list_meta : ListMeta
  pub items : Items

pub record KvdbSpec (Strings : Type 0) : Type 0 where
  pub endpoints : Strings
  pub basic_auth_secret : String
  pub certificate_secret : String
  pub acl_token_secret : String

pub record NodeNetwork : Type 0 where
  pub data_interface : String
  pub mgmt_interface : String

pub record StorageSpec (Strings : Type 0) : Type 0 where
  pub devices : Strings
  pub zero_storage : Bool
  pub force : Bool
  pub use_all : Bool
  pub use_all_with_partitions : Bool

pub record Placement (NodeAffinity PodAffinity PodAntiAffinity Tolerations : Type 0) : Type 0 where
  pub type_meta : TypeMeta
  pub node_affinity : NodeAffinity
  pub pod_affinity : PodAffinity
  pub pod_anti_affinity : PodAntiAffinity
  pub tolerations : Tolerations

pub record PlacementSpec (P : Type 0) : Type 0 where
  pub type_meta : TypeMeta
  pub px : P

pub record ClusterSpec (Kvdb Storage Placed Env : Type 0) : Type 0 where
  pub kvdb : Kvdb
  pub px_image : String
  pub px_tag : String
  pub oci_mon_image : String
  pub oci_mon_tag : String
  pub network : NodeNetwork
  pub storage : Storage
  pub placement : Placed
  pub env : Env

pub record Cluster (Meta Spec : Type 0) : Type 0 where
  pub type_meta : TypeMeta
  pub object_meta : Meta
  pub spec : Spec

-- `api.Status` of openstorage is a number.
pub record StatusInfo : Type 0 where
  pub ready : Bool
  pub code : ℕ
  pub message : String
  pub reason : String

pub record NodeStatus : Type 0 where
  pub status_info : StatusInfo
  pub name : String

pub record ClusterStatus (Statuses : Type 0) : Type 0 where
  pub status_info : StatusInfo
  pub name : String
  pub node_statuses : Statuses

abbrev pub zero_requirement : LabelSelectorRequirement Ref
zero_requirement = record { key = ""; operator = ""; values = none }

abbrev pub zero_rule : VolumePlacementRule Ref
zero_rule = record {
  affected_replicas = 0;
  weight = 0;
  enforcement = "";
  rule_type = "";
  match_expressions = none;
}
