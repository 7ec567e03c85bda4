-- ===== src/Px/Daemonsets.antt =====
-- pkg/cluster/px/px.go: the daemon sets of Portworx.
use talisman.Go.Results.{Action, gather}
use talisman.Common.{List}
use talisman.Kube.Objects.{DaemonSet}
use talisman.Px.Names.{px_label_selector}
use talisman.Px.Ops.{PxClusterOps}

-- `getPXDaemonsets`
unfoldable pub get_px_daemonsets : {W : Type 0} → PxClusterOps W → Action W (List DaemonSet)
get_px_daemonsets ops =
    gather ops.installed_namespaces λ ns. ops.k8s_apps.list_daemon_sets ns px_label_selector
