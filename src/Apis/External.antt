-- ===== src/Apis/External.antt =====
-- The types of Kubernetes that the API types contain. Those with pointers inside have a type for what
-- is in memory and one for the value that this stands for.
use talisman.Common.{String, none}
use talisman.Go.Memory.{Ref}

pub record External : Type 1 where
  pub ObjectMeta : Type 0
  pub ObjectMetaValue : Type 0
  pub EnvVar : Type 0
  pub EnvVarValue : Type 0
  pub NodeAffinity : Type 0
  pub NodeAffinityValue : Type 0
  pub PodAffinity : Type 0
  pub PodAffinityValue : Type 0
  pub PodAntiAffinity : Type 0
  pub PodAntiAffinityValue : Type 0
  pub Toleration : Type 0
  pub TolerationValue : Type 0
  -- What their copies keep in memory beside them.
  pub Part : Type 0
  pub zero_object_meta : ObjectMeta
  pub zero_env_var : EnvVar
  pub zero_node_affinity : NodeAffinity
  pub zero_pod_affinity : PodAffinity
  pub zero_pod_anti_affinity : PodAntiAffinity
  pub zero_toleration : Toleration

-- `meta.TypeMeta`
pub record TypeMeta : Type 0 where
  pub kind : String
  pub api_version : String

abbrev pub zero_type_meta : TypeMeta
zero_type_meta = record { kind = ""; api_version = "" }

-- `meta.ListMeta` of apimachinery v0.21, whose last field is a pointer.
pub record ListMeta : Type 0 where
  pub self_link : String
  pub resource_version : String
  pub continue_token : String
  pub remaining_item_count : Ref

abbrev pub zero_list_meta : ListMeta
zero_list_meta = record {
  self_link = "";
  resource_version = "";
  continue_token = "";
  remaining_item_count = none;
}
