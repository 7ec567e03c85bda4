-- ===== src/Px/Drain/Decision.antt =====
-- What the search for a version in the nodes depends on.
use talisman.Common.{
  String, ◌==◌, starts_with, ◌≡◌, refl, inl, inr, Bool, false, List, [], ◌∷◌, Bool-cases,
  if◌then◌else◌,
}
use talisman.Go.Results.{errorf, Result, ok, err}
use talisman.Openstorage.{Node, ClusterManager}
use talisman.Px.Drain.{version_label, scan_nodes, is_any_node_running_version_with_prefix}

-- The decision for a cluster by its first node alone.
abbrev pub by_first_node : String → List Node → Result Bool
by_first_node prefix [] = ok false
by_first_node prefix (n ∷ _) =
    if version_label n == ""
    then err (errorf "no version found in labels for node: %s" (n.id ∷ []))
    else ok (starts_with (version_label n) prefix)

module _ {W : Type 0} where
  scan_nodes-first :
      (prefix : String) (first : Node) (rest : List Node) (w : W)
      → starts_with (version_label first) prefix ≡ false
      → (version_label first == "") ≡ false
      → scan_nodes prefix first rest w ≡ (ok false, w)
  unfolding scan_nodes
  scan_nodes-first prefix first [] w lacks named = refl
  scan_nodes-first prefix first (n ∷ rest) w lacks named =
      rw (named, lacks) (scan_nodes-first prefix first rest w lacks named)

  -- Whatever nodes are enumerated, `is_any_node_running_version_with_prefix` answers for the first
  -- of them alone: whether its version label has the prefix, or an error if it has no label.
  pub is_any_node_running_version_with_prefix-first :
      (prefix : String) (cluster_manager : ClusterManager W) (nodes : List Node) (w w' : W)
      → cluster_manager.enumerate w ≡ (ok nodes, w')
      → is_any_node_running_version_with_prefix prefix cluster_manager w
        ≡ (by_first_node prefix nodes, w')
  unfolding is_any_node_running_version_with_prefix scan_nodes
  is_any_node_running_version_with_prefix-first prefix cluster_manager [] w w' e = rw e refl
  is_any_node_running_version_with_prefix-first prefix cluster_manager (n ∷ rest) w w' e =
      rw e (elim (Bool-cases (version_label n == "")) [
        | inl unnamed ↦ rw unnamed refl
        | inr named ↦ rw named (elim (Bool-cases (starts_with (version_label n) prefix)) [
          | inl with_prefix ↦ rw with_prefix refl
          | inr lacks ↦ rw lacks (scan_nodes-first prefix n rest w' lacks named)
        ])
      ])
