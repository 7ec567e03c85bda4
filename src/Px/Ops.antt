-- ===== src/Px/Ops.antt =====
-- pkg/cluster/px/px.go: `pxClusterOps`, the options of its operations, and its creation.
use talisman.Common.{ℕ, String, Bool, true, false, List, [], ◌∷◌, if◌then◌else◌}
use talisman.Go.Results.{no_px_daemonset, Action, pure, raise, ◌>>=◌, gather}
use talisman.Kube.Clients.{CoreOps, AppsOps, RbacOps, StorageOps, AdmissionOps}
use talisman.K8sutils.Instance.{Instance}
use talisman.Px.Names.{px_label_selector}

-- `platformType`: "" and "pks".
pub data PlatformType : Type 0 where
  platform_type_default platform_type_pks : PlatformType

pub record PxClusterOps (W : Type 0) : Type 0 where
  pub core_ops : CoreOps W
  pub k8s_apps : AppsOps W
  pub k8s_rbac : RbacOps W
  pub k8s_storage : StorageOps W
  pub k8s_admissions : AdmissionOps W
  pub utils : Instance W
  pub docker_registry_secret : String
  pub platform : PlatformType
  pub installed_namespaces : List String

-- `SharedAppsScaleDownMode` is a text: "auto", "on", "off", or any other.
pub record UpgradeOptions : Type 0 where
  pub shared_apps_scale_down : String
  pub timeout_per_node : ℕ

pub record DeleteOptions : Type 0 where
  pub wipe_cluster : Bool
  pub wiper_image : String
  pub wiper_tag : String

abbrev pub is_empty {ℓ} : {A : Type ℓ} → List A → Bool
is_empty [] = true
is_empty (_ ∷ _) = false

module _ {W : Type 0} where
  -- The namespaces of which the daemon sets of Portworx are found.
  detect_namespaces : AppsOps W → List String → Action W (List String)
  detect_namespaces k8s_apps namespaces = gather namespaces λ ns. do
    dss ← k8s_apps.list_daemon_sets ns px_label_selector
    pure (if is_empty dss then [] else ns ∷ [])

  -- `NewPXClusterProvider`, over the clients that it takes from the packages of sched-ops, with
  -- `new_utils` for the call of `k8sutils.New`.
  unfoldable pub new_px_cluster_provider :
      Action W (Instance W)
      → CoreOps W
      → AppsOps W
      → RbacOps W
      → StorageOps W
      → AdmissionOps W
      → String
      → Action W (PxClusterOps W)
  unfolding detect_namespaces
  new_px_cluster_provider new_utils core k8s_apps rbac storage admissions docker_registry_secret =
      do
        utils ← new_utils
        namespaces ← core.list_namespaces
        installed ← detect_namespaces k8s_apps namespaces
        if is_empty installed
            then raise no_px_daemonset
            else pure (record {
              core_ops = core;
              k8s_apps = k8s_apps;
              k8s_rbac = rbac;
              k8s_storage = storage;
              k8s_admissions = admissions;
              utils = utils;
              docker_registry_secret = docker_registry_secret;
              platform = platform_type_default;
              installed_namespaces = installed;
            })
