-- ===== src/Apis/Zero.antt =====
-- The zero values of the API types, with which new memory is filled.
use talisman.Common.{false, none}
use talisman.Go.Memory.{Ref}
use talisman.Apis.External.{External, zero_type_meta, zero_list_meta}
use talisman.Apis.V1beta1.{NodeStatus, ListOf}
use talisman.Apis.V1beta2
use talisman.Apis.Cells.{Strategy, StrategyV1beta2, ClusterObject}

abbrev pub zero_node_status : NodeStatus
zero_node_status = record {
  status_info = record { ready = false; code = 0; message = ""; reason = "" };
  name = "";
}

abbrev pub zero_placement_spec_v1beta2 : V1beta2.VolumePlacementSpec Ref Ref
zero_placement_spec_v1beta2 = record {
  replica_affinity = none;
  replica_anti_affinity = none;
  volume_affinity = none;
  volume_anti_affinity = none;
}

abbrev pub zero_list : ListOf Ref
zero_list = record { type_meta = zero_type_meta; list_meta = zero_list_meta; items = none }

module _ (E : External) where
  abbrev pub zero_strategy : Strategy E
  zero_strategy = record {
    type_meta = zero_type_meta;
    object_meta = E.zero_object_meta;
    spec = record { rules = none };
  }

  abbrev pub zero_strategy_v1beta2 : StrategyV1beta2 E
  zero_strategy_v1beta2 = record {
    type_meta = zero_type_meta;
    object_meta = E.zero_object_meta;
    spec = zero_placement_spec_v1beta2;
  }

  abbrev pub zero_cluster : ClusterObject E
  zero_cluster = record {
    type_meta = zero_type_meta;
    object_meta = E.zero_object_meta;
    spec = record {
      kvdb = record {
        endpoints = none;
        basic_auth_secret = "";
        certificate_secret = "";
        acl_token_secret = "";
      };
      px_image = "";
      px_tag = "";
      oci_mon_image = "";
      oci_mon_tag = "";
      network = record { data_interface = ""; mgmt_interface = "" };
      storage = record {
        devices = none;
        zero_storage = false;
        force = false;
        use_all = false;
        use_all_with_partitions = false;
      };
      placement = record {
        type_meta = zero_type_meta;
        px = record {
          type_meta = zero_type_meta;
          node_affinity = none;
          pod_affinity = none;
          pod_anti_affinity = none;
          tolerations = none;
        };
      };
      env = none;
    };
  }
