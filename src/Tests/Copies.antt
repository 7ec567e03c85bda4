-- ===== src/Tests/Copies.antt =====
-- Deep copies in a small memory.
use talisman.Common.{
  ℕ, String, false, true, ◌≡◌, refl, ◌≤◌, ◌<◌, ◌-◌, eqb, if◌then◌else◌, Option, none, some, List,
  [], ◌∷◌, arith,
}
use talisman.Go.Memory.{Ref, Heap, pure}
use talisman.Go.Memory.Models.{Model, plain, Points, list_model, ref_model}
use talisman.Go.Memory.Copies.{copy_ref, copy_ref-Copies}
use talisman.Go.Memory.Independence.{Independent}
use talisman.Apis.External.{External, zero_type_meta}
use talisman.Apis.V1beta1.{
  ListOf, KvdbSpec, NodeNetwork, StorageSpec, Placement, PlacementSpec, ClusterSpec, Cluster,
}
use talisman.Apis.Cells.{
  Cell, DeepCopies, ClusterObject, strings, tolerations, cluster, clusters, list, part,
}
use talisman.Apis.Copy.{deep_copy_cluster}
use talisman.Apis.Copy.Models.{IsDeep, ClusterFieldsValue}
use talisman.Apis.Copy.Strategies.{plain-Copies}
use talisman.Apis.Copy.Clusters.{cluster_model, deep_copy_cluster-Independent}

-- The metadata of an object is a pointer to its name; the other types are texts.
abbrev pub kubernetes : External
kubernetes = record {
  ObjectMeta = Ref;
  ObjectMetaValue = Option String;
  EnvVar = String;
  EnvVarValue = String;
  NodeAffinity = String;
  NodeAffinityValue = String;
  PodAffinity = String;
  PodAffinityValue = String;
  PodAntiAffinity = String;
  PodAntiAffinityValue = String;
  Toleration = String;
  TolerationValue = String;
  Part = String;
  zero_object_meta = none;
  zero_env_var = "";
  zero_node_affinity = "";
  zero_pod_affinity = "";
  zero_pod_anti_affinity = "";
  zero_toleration = "";
}

abbrev as_part : Cell kubernetes → Option String
as_part (part x) = some x
as_part _ = none

abbrev pub copies : DeepCopies kubernetes
copies = record {
  copy_object_meta = copy_ref part as_part (λ _. "") pure;
  copy_env_var = pure;
  copy_node_affinity = pure;
  copy_pod_affinity = pure;
  copy_pod_anti_affinity = pure;
  copy_toleration = pure;
}

abbrev pub their_depth : IsDeep kubernetes copies
their_depth = record {
  object_meta_model = ref_model part plain;
  env_var_model = plain;
  node_affinity_model = plain;
  pod_affinity_model = plain;
  pod_anti_affinity_model = plain;
  toleration_model = plain;
  object_meta_copies = copy_ref-Copies plain pure plain-Copies part _ _ λ a. refl;
  env_var_copies = plain-Copies;
  node_affinity_copies = plain-Copies;
  pod_affinity_copies = plain-Copies;
  pod_anti_affinity_copies = plain-Copies;
  toleration_copies = plain-Copies;
}

abbrev a_network : NodeNetwork
a_network = record { data_interface = "eth0"; mgmt_interface = "eth1" }

module _ {M S V T E : Type 0} (name : M) (endpoints devices : S) (affinity : V) (tolerations : T)
    (env : E) where
  abbrev storage : StorageSpec S
  storage = record {
    devices = devices;
    zero_storage = false;
    force = true;
    use_all = false;
    use_all_with_partitions = false;
  }

  abbrev kvdb : KvdbSpec S
  kvdb = record {
    endpoints = endpoints;
    basic_auth_secret = "basic";
    certificate_secret = "";
    acl_token_secret = "";
  }

  abbrev placement : Placement V V V T
  placement = record {
    type_meta = zero_type_meta;
    node_affinity = affinity;
    pod_affinity = affinity;
    pod_anti_affinity = affinity;
    tolerations = tolerations;
  }

  abbrev cluster_of :
      Cluster M (ClusterSpec (KvdbSpec S) (StorageSpec S) (PlacementSpec (Placement V V V T)) E)
  cluster_of = record {
    type_meta = zero_type_meta;
    object_meta = name;
    spec = record {
      kvdb = kvdb;
      px_image = "portworx/px-enterprise";
      px_tag = "2.1.2";
      oci_mon_image = "portworx/oci-monitor";
      oci_mon_tag = "2.1.2";
      network = a_network;
      storage = storage;
      placement = record { type_meta = zero_type_meta; px = placement };
      env = env;
    };
  }

-- A cluster whose name, endpoints and tolerations are in memory, and the value it stands for.
abbrev in_memory : ClusterObject kubernetes
in_memory = cluster_of (some 1) (some 2) none none (some 3) none

abbrev as_value : Cluster (Option String) (ClusterFieldsValue kubernetes)
as_value =
    cluster_of (some "prod") (some ("etcd:2379" ∷ [])) none none (some ("dedicated" ∷ [])) none

abbrev pub nth : {C : Type 0} → List C → ℕ → Option C
nth [] q = none
nth (c ∷ cs) q = let rest = nth cs (q - 1) in if eqb q 0 then some c else rest

abbrev cluster_memory : Heap (Cell kubernetes)
cluster_memory = record {
  next = 4;
  cell = nth (
      cluster in_memory
      ∷ part "prod"
      ∷ strings ("etcd:2379" ∷ [])
      ∷ tolerations ("dedicated" ∷ [])
      ∷ []);
}

pub points :
    {C A V : Type 0} (pack : A → C) (D : Model C A V) (h : Heap C) (p : ℕ) (a : A) (v : V)
    → p < h.next
    → h.cell p ≡ some (pack a)
    → D.Rep h 0 a v
    → Points pack D h 0 p v
points pack D h p a v below stored stands = record {
  target = a;
  above = omega arith;
  below = below;
  stored = stored;
  stands = stands;
}

in_memory-stands :
    (h : Heap (Cell kubernetes))
    → 4 ≤ h.next
    → h.cell 1 ≡ some (part "prod")
    → h.cell 2 ≡ some (strings ("etcd:2379" ∷ []))
    → h.cell 3 ≡ some (tolerations ("dedicated" ∷ []))
    → (cluster_model copies their_depth).Rep h 0 in_memory as_value
in_memory-stands h le name_at endpoints_at tolerations_at = (
  (refl, points part plain h 1 "prod" "prod" (omega arith) name_at refl),
  (
    (
      refl,
      (
        refl,
        points strings plain h 2 ("etcd:2379" ∷ []) ("etcd:2379" ∷ []) (omega arith) endpoints_at
            refl,
      ),
    ),
    (
      (refl, tt),
      (
        (
          refl,
          (
            (refl, tt),
            (
              tt,
              (
                tt,
                points tolerations (list_model plain) h 3 ("dedicated" ∷ []) ("dedicated" ∷ [])
                    (omega arith) tolerations_at (refl, tt),
              ),
            ),
          ),
        ),
        tt,
      ),
    ),
  ),
)

deep_copy_cluster-Independent_example :
    Independent
      (ref_model cluster (cluster_model copies their_depth))
      cluster_memory
      (some 0)
      (some as_value)
      (deep_copy_cluster copies (some 0) cluster_memory)
deep_copy_cluster-Independent_example =
    deep_copy_cluster-Independent copies their_depth cluster_memory (some 0) (some as_value) (
      points cluster (cluster_model copies their_depth) cluster_memory 0 in_memory as_value
        (omega arith) refl (in_memory-stands cluster_memory (omega arith) refl refl refl))

-- A list of that cluster, with a number of remaining items in memory.
abbrev a_list : ListOf Ref
a_list = record {
  type_meta = zero_type_meta;
  list_meta = record {
    self_link = "";
    resource_version = "7";
    continue_token = "next";
    remaining_item_count = some 5;
  };
  items = some 0;
}

abbrev list_memory : Heap (Cell kubernetes)
list_memory = record {
  next = 6;
  cell = nth (
      clusters (in_memory ∷ [])
      ∷ part "prod"
      ∷ strings ("etcd:2379" ∷ [])
      ∷ tolerations ("dedicated" ∷ [])
      ∷ list a_list
      ∷ part "12"
      ∷ []);
}
