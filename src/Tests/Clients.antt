-- ===== src/Tests/Clients.antt =====
-- Clients that refuse every call, from which the test clusters are made.
use talisman.Common.{none, false}
use talisman.Go.Results.{api, other_reason, Action, raise, err}
use talisman.Kube.Clients.{CoreOps, AppsOps, RbacOps, StorageOps, AdmissionOps}
use talisman.K8sutils.Instance.{Instance}

abbrev pub unavailable : {W A : Type 0} → Action W A
unavailable = raise (api other_reason "unavailable")

abbrev pub no_core : (W : Type 0) → CoreOps W
no_core W = record {
  list_namespaces = unavailable;
  create_namespace = λ _. unavailable;
  delete_namespace = λ _. unavailable;
  get_nodes = unavailable;
  get_service = λ _ _. unavailable;
  create_service = λ _. unavailable;
  patch_service = λ _ _ _. unavailable;
  delete_service = λ _ _. unavailable;
  delete_service_account = λ _ _. unavailable;
  get_secret = λ _ _. unavailable;
  delete_secret = λ _ _. unavailable;
  list_config_map = λ _ w. ((none, none), w);
  delete_config_map = λ _ _. unavailable;
  get_pods = λ _. unavailable;
  is_pod_being_managed = λ _ w. (false, w);
  get_persistent_volume_claim = λ _ _. unavailable;
  get_persistent_volume = λ _. unavailable;
  get_storage_provisioner_for_pvc = λ _. unavailable;
  get_pvcs_using_storage_class = λ _. unavailable;
  get_volume_for_persistent_volume_claim = λ _. unavailable;
}

abbrev pub no_apps : (W : Type 0) → AppsOps W
no_apps W = record {
  list_daemon_sets = λ _ _. unavailable;
  get_daemon_set = λ _ _. unavailable;
  create_daemon_set = λ _ w. ((err (api other_reason "unavailable"), none), w);
  update_daemon_set = λ _. unavailable;
  validate_daemon_set = λ _ _ _. unavailable;
  delete_daemon_set = λ _ _. unavailable;
  delete_deployment = λ _ _. unavailable;
  delete_stateful_set = λ _ _. unavailable;
  get_deployments_using_storage_class = λ _. unavailable;
  get_stateful_sets_using_storage_class = λ _. unavailable;
}

abbrev pub no_rbac : (W : Type 0) → RbacOps W
no_rbac W = record {
  update_cluster_role = λ _. unavailable;
  delete_cluster_role = λ _. unavailable;
  delete_cluster_role_binding = λ _. unavailable;
  create_role = λ _. unavailable;
  update_role = λ _. unavailable;
  delete_role = λ _ _. unavailable;
  create_role_binding = λ _. unavailable;
  update_role_binding = λ _. unavailable;
  delete_role_binding = λ _ _. unavailable;
}

abbrev pub no_storage : (W : Type 0) → StorageOps W
no_storage W = record {
  get_storage_class_params = λ _. unavailable;
  delete_storage_class = λ _. unavailable;
}

abbrev pub no_admissions : (W : Type 0) → AdmissionOps W
no_admissions W = record { delete_mutating_webhook_configuration = λ _. unavailable }

-- An instance over such clients.
abbrev pub no_instance : (W : Type 0) → Instance W
no_instance W = record {
  kube_client = record {
    list_storage_classes = unavailable;
    get_deployment = λ _ _. unavailable;
    update_deployment = λ _ _. unavailable;
    get_stateful_set = λ _ _. unavailable;
    update_stateful_set = λ _ _. unavailable;
  };
  k8s_ops = no_core W;
  apps_ops = no_apps W;
  storage_ops = no_storage W;
}
