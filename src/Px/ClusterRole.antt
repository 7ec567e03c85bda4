-- ===== src/Px/ClusterRole.antt =====
-- pkg/cluster/px/px.go: the cluster role that `upgradePX` writes.
use talisman.Common.{String, List, [], ◌∷◌}
use talisman.Kube.Objects.{PolicyRule, Role}
use talisman.Px.Names.{px_cluster_role_name}

abbrev rule : String → List String → List String → List String → PolicyRule
rule group resources resource_names verbs = record {
  api_groups = group ∷ [];
  resources = resources;
  resource_names = resource_names;
  verbs = verbs;
}

abbrev pub px_cluster_role : Role
px_cluster_role = record {
  name = px_cluster_role_name;
  namespace = "";
  rules =
      rule "" ("secrets" ∷ []) [] ("get" ∷ "list" ∷ [])
      ∷ rule "" ("nodes" ∷ []) [] ("get" ∷ "update" ∷ "list" ∷ "watch" ∷ [])
      ∷ rule "" ("pods" ∷ []) [] ("get" ∷ "list" ∷ "delete" ∷ "watch" ∷ "update" ∷ [])
      ∷ rule "" ("persistentvolumeclaims" ∷ "persistentvolumes" ∷ []) []
          ("get" ∷ "list" ∷ "create" ∷ "delete" ∷ "update" ∷ [])
      ∷ rule "storage.k8s.io" ("storageclasses" ∷ "csinodes" ∷ []) [] ("get" ∷ "list" ∷ [])
      ∷ rule "storage.k8s.io" ("volumeattachments" ∷ []) []
          ("get" ∷ "list" ∷ "create" ∷ "delete" ∷ "update" ∷ [])
      ∷ rule "" ("configmaps" ∷ []) [] ("get" ∷ "update" ∷ "list" ∷ "create" ∷ [])
      ∷ rule "" ("services" ∷ []) [] ("get" ∷ "list" ∷ "create" ∷ "update" ∷ "delete" ∷ [])
      ∷ rule "" ("endpoints" ∷ []) [] ("get" ∷ "list" ∷ "create" ∷ "update" ∷ "delete" ∷ [])
      ∷ rule "extensions" ("podsecuritypolicies" ∷ []) ("privileged" ∷ []) ("use" ∷ [])
      ∷ rule "portworx.io" ("volumeplacementstrategies" ∷ []) [] ("get" ∷ "list" ∷ [])
      ∷ rule "stork.libopenstorage.org" ("backuplocations" ∷ []) [] ("get" ∷ "list" ∷ [])
      ∷ rule "core.libopenstorage.org" ("*" ∷ []) [] ("*" ∷ [])
      ∷ rule "" ("events" ∷ []) [] ("create" ∷ [])
      ∷ [];
}
