-- ===== src/Apis/V1beta2.antt =====
-- pkg/apis/portworx/v1beta2/types.go
use talisman.Common.{ℕ, String, none}
use talisman.Go.Memory.{Ref}
use talisman.Apis.V1beta1.{EnforcementType}

pub record CommonPlacementSpec (Requirements : Type 0) : Type 0 where
  pub weight : ℕ
  pub enforcement : EnforcementType
  pub topology_key : String
  pub match_expressions : Requirements

pub record ReplicaPlacementSpec (Requirements : Type 0) : Type 0 where
  pub common : CommonPlacementSpec Requirements
  pub affected_replicas : ℕ

pub record VolumePlacementSpec (Replicas Volumes : Type 0) : Type 0 where
  pub replica_affinity : Replicas
  pub replica_anti_affinity : Replicas
  pub volume_affinity : Volumes
  pub volume_anti_affinity : Volumes

abbrev pub zero_common : CommonPlacementSpec Ref
zero_common = record { weight = 0; enforcement = ""; topology_key = ""; match_expressions = none }

abbrev pub zero_replica : ReplicaPlacementSpec Ref
zero_replica = record { common = zero_common; affected_replicas = 0 }
