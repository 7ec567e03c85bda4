-- ===== src/K8sutils/Instance.antt =====
-- pkg/k8sutils/k8sutils.go: `Instance` and the constants of the package.
use talisman.Common.{ℕ, ◌*◌, ◌^◌, String}
use talisman.Kube.Clients.{CoreOps, AppsOps, StorageOps, KubeClient}

abbrev pub replica_memory_key : String
replica_memory_key = "px/replicas-before-scale-down"

-- `time.Second` and `time.Minute`, in nanoseconds.
abbrev pub second : ℕ
second = 10 ^ 9

abbrev pub minute : ℕ
minute = 60 * second

abbrev pub deployment_update_timeout : ℕ
deployment_update_timeout = 5 * minute

abbrev pub stateful_set_update_timeout : ℕ
stateful_set_update_timeout = 10 * minute

abbrev pub default_retry_interval : ℕ
default_retry_interval = 10 * second

abbrev pub px_storage_provisioner_name : String
px_storage_provisioner_name = "kubernetes.io/portworx-volume"

-- `Instance`, with the two clients that the functions take from `apps.Instance()` and
-- `storage.Instance()`.
pub record Instance (W : Type 0) : Type 0 where
  pub kube_client : KubeClient W
  pub k8s_ops : CoreOps W
  pub apps_ops : AppsOps W
  pub storage_ops : StorageOps W
