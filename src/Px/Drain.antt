-- ===== src/Px/Drain.antt =====
-- pkg/cluster/px/px.go: whether applications are drained or scaled down for an upgrade.
pub mod Decision
use talisman.Common.{
  String, ◌==◌, starts_with, Bool, true, false, ◌&&◌, ◌||◌, Option, none, some, List, [], ◌∷◌,
  lookup, if◌then◌else◌,
}
use talisman.Go.Results.{errorf, Action, pure, raise, of_result, ◌>>=◌}
use talisman.Kube.Objects.{Labels}
use talisman.Api.{ClusterSpec}
use talisman.Openstorage.{Node, ClusterManager}
use talisman.Px.Names.{px_version_label}
use talisman.Px.Ops.{UpgradeOptions}
use talisman.Px.Version.{parse_px_version}

-- `m[k]` of a map of texts: the empty text where the key is missing.
abbrev pub text_or_empty : Option String → String
text_or_empty none = ""
text_or_empty (some s) = s

abbrev pub version_label : Node → String
version_label n = text_or_empty (lookup px_version_label n.node_labels)

module _ {W : Type 0} where
  -- A round of the loop reads the version of the first node of the cluster, whichever node it is at.
  unfoldable pub scan_nodes : String → Node → List Node → Action W Bool
  scan_nodes prefix first [] = pure false
  scan_nodes prefix first (n ∷ rest) =
      let more = scan_nodes prefix first rest in
      let ver = version_label first in
      if ver == ""
      then raise (errorf "no version found in labels for node: %s" (first.id ∷ []))
      else if starts_with ver prefix
      then pure true
      else more

  abbrev pub scan_cluster : String → List Node → Action W Bool
  scan_cluster prefix [] = pure false
  scan_cluster prefix (n ∷ rest) = scan_nodes prefix n (n ∷ rest)

  -- `isAnyNodeRunningVersionWithPrefix`
  unfoldable pub is_any_node_running_version_with_prefix : String → ClusterManager W → Action W Bool
  unfolding scan_nodes
  is_any_node_running_version_with_prefix prefix cluster_manager = do
    nodes ← cluster_manager.enumerate
    scan_cluster prefix nodes

  -- `isUpgradeAppDrainRequired`
  unfoldable pub is_upgrade_app_drain_required : ClusterSpec → ClusterManager W → Action W Bool
  unfolding is_any_node_running_version_with_prefix parse_px_version
  is_upgrade_app_drain_required spec cluster_manager = do
    current_version_dublin ← is_any_node_running_version_with_prefix "1.2" cluster_manager
    new_version ← of_result (parse_px_version spec.px_tag)
    if starts_with new_version "1.3.3" || starts_with new_version "1.3.4"
        then pure true
        else pure (
            current_version_dublin
            && (starts_with new_version "1.3" || starts_with new_version "1.4"))

-- `isScaleDownOfSharedAppsRequired`; options that are nil are `none`.
unfoldable pub is_scale_down_of_shared_apps_required : Bool → Option UpgradeOptions → Bool
is_scale_down_of_shared_apps_required is_major_ver_upgrade none = is_major_ver_upgrade
is_scale_down_of_shared_apps_required is_major_ver_upgrade (some opts) =
    if opts.shared_apps_scale_down == "" || opts.shared_apps_scale_down == "auto"
    then is_major_ver_upgrade
    else opts.shared_apps_scale_down == "on"
