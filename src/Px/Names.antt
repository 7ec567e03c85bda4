-- ===== src/Px/Names.antt =====
-- pkg/cluster/px/px.go: the constants of the package.
use talisman.Common.{ℕ, ◌*◌, String}
use talisman.K8sutils.Instance.{minute}

abbrev pub change_cause_annotation : String
change_cause_annotation = "kubernetes.io/change-cause"

-- The selector in `pxListOpts`.
abbrev pub px_label_selector : String
px_label_selector = "name=portworx"

abbrev pub pks_persistent_store_root : String
pks_persistent_store_root = "/var/vcap/store"

abbrev pub px_node_wiper_namespace : String
px_node_wiper_namespace = "kube-system"

abbrev pub px_secrets_namespace : String
px_secrets_namespace = "portworx"

abbrev pub default_px_image : String
default_px_image = "portworx/px-enterprise"

abbrev pub default_node_wiper_image : String
default_node_wiper_image = "portworx/px-node-wiper"

abbrev pub default_node_wiper_tag : String
default_node_wiper_tag = "2.1.1"

abbrev pub px_service_name : String
px_service_name = "portworx-service"

abbrev pub px_cluster_role_name : String
px_cluster_role_name = "node-get-put-list-role"

abbrev pub px_cluster_role_binding_name : String
px_cluster_role_binding_name = "node-role-binding"

abbrev pub px_role_name : String
px_role_name = "px-role"

abbrev pub px_role_binding_name : String
px_role_binding_name = "px-role-binding"

abbrev pub px_service_account_name : String
px_service_account_name = "px-account"

abbrev pub px_daemonset_container_name : String
px_daemonset_container_name = "portworx"

abbrev pub px_api_daemonset : String
px_api_daemonset = "portworx-api"

abbrev pub px_api_service_name : String
px_api_service_name = "portworx-api"

abbrev pub lh_role_name : String
lh_role_name = "px-lh-role"

abbrev pub lh_role_binding_name : String
lh_role_binding_name = "px-lh-role-binding"

abbrev pub lh_service_account_name : String
lh_service_account_name = "px-lh-account"

abbrev pub lh_config_map : String
lh_config_map = "px-lighthouse-config"

abbrev pub lh_service_name : String
lh_service_name = "px-lighthouse"

abbrev pub lh_deployment_name : String
lh_deployment_name = "px-lighthouse"

abbrev pub csi_ext_deployment_name : String
csi_ext_deployment_name = "px-csi-ext"

abbrev pub bootstrap_cloud_drive_namespace : String
bootstrap_cloud_drive_namespace = "kube-system"

abbrev pub internal_etcd_config_map_prefix : String
internal_etcd_config_map_prefix = "px-bootstrap-"

abbrev pub cloud_drive_config_map_prefix : String
cloud_drive_config_map_prefix = "px-cloud-drive-"

abbrev pub px_bringup_queue_config_map_prefix : String
px_bringup_queue_config_map_prefix = "px-bringup-queue-lock"

abbrev pub px_attach_driveset_config_map : String
px_attach_driveset_config_map = "px-attach-driveset-lock"

abbrev pub pure_cloud_drive_config_map : String
pure_cloud_drive_config_map = "px-pure-cloud-drive"

abbrev pub pvc_controller_cluster_role : String
pvc_controller_cluster_role = "portworx-pvc-controller-role"

abbrev pub pvc_controller_cluster_role_binding : String
pvc_controller_cluster_role_binding = "portworx-pvc-controller-role-binding"

abbrev pub pvc_controller_service_account : String
pvc_controller_service_account = "portworx-pvc-controller-account"

abbrev pub pvc_controller_name : String
pvc_controller_name = "portworx-pvc-controller"

abbrev pub px_version_label : String
px_version_label = "PX Version"

abbrev pub talisman_service_account : String
talisman_service_account = "talisman-account"

abbrev pub stork_controller_name : String
stork_controller_name = "stork"

abbrev pub stork_service_name : String
stork_service_name = "stork-service"

abbrev pub stork_controller_config_map : String
stork_controller_config_map = "stork-config"

abbrev pub stork_controller_cluster_role : String
stork_controller_cluster_role = "stork-role"

abbrev pub stork_controller_cluster_binding : String
stork_controller_cluster_binding = "stork-role-binding"

abbrev pub stork_controller_service_account : String
stork_controller_service_account = "stork-account"

abbrev pub stork_scheduler_cluster_role : String
stork_scheduler_cluster_role = "stork-scheduler-role"

abbrev pub stork_scheduler_cluser_binding : String
stork_scheduler_cluser_binding = "stork-scheduler-role-binding"

abbrev pub stork_scheduler_service_account : String
stork_scheduler_service_account = "stork-scheduler-account"

abbrev pub stork_scheduler_name : String
stork_scheduler_name = "stork-scheduler"

abbrev pub stork_snapshot_storage_class : String
stork_snapshot_storage_class = "stork-snapshot-sc"

abbrev pub stork_webhook_cfg : String
stork_webhook_cfg = "stork-webhooks-cfg"

abbrev pub csi_cluster_role_binding : String
csi_cluster_role_binding = "px-csi-role-binding"

abbrev pub csi_service : String
csi_service = "px-csi-service"

abbrev pub csi_account : String
csi_account = "px-csi-account"

abbrev pub csi_cluster_role : String
csi_cluster_role = "px-csi-role"

abbrev pub csi_stateful_set : String
csi_stateful_set = "px-csi-ext"

abbrev pub osb_secret_name : String
osb_secret_name = "px-osb"

abbrev pub essential_secret_name : String
essential_secret_name = "px-essential"

abbrev pub px_node_wiper_daemon_set_name : String
px_node_wiper_daemon_set_name = "px-node-wiper"

abbrev pub px_kvdb_prefix : String
px_kvdb_prefix = "pwx/"

abbrev pub px_image_env_key : String
px_image_env_key = "PX_IMAGE"

-- The timeouts, in nanoseconds; `defaultRetryInterval` has the value that k8sutils gives it too.
abbrev pub px_node_wiper_timeout : ℕ
px_node_wiper_timeout = 10 * minute

abbrev pub shared_vol_detach_timeout : ℕ
shared_vol_detach_timeout = 5 * minute

abbrev pub daemonset_update_trigger_timeout : ℕ
daemonset_update_trigger_timeout = 5 * minute

abbrev pub daemonset_delete_timeout : ℕ
daemonset_delete_timeout = 5 * minute
