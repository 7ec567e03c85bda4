-- ===== src/Kube/Clients.antt =====
-- The clients of sched-ops and client-go that the code calls, over an unknown state `W` of the
-- cluster. A call may change the state, and returns a value or an error. The arguments are in the
-- order of the Go functions.
use talisman.Common.{ℕ, String, List, Option, Bool}
use talisman.Go.Results.{Action, Error, Result}
use talisman.Kube.Objects.{
  Labels, Workload, DaemonSet, Service, ServicePort, Role, RoleBinding, StorageClass, Pod,
  PersistentVolumeClaim, PersistentVolume,
}

module _ (W : Type 0) where
  -- `core.Ops`
  pub record CoreOps : Type 0 where
    pub list_namespaces : Action W (List String)
    pub create_namespace : String → Action W (Unit {0})
    pub delete_namespace : String → Action W (Unit {0})
    pub get_nodes : Action W (List String)
    pub get_service : String → String → Action W Service
    pub create_service : Service → Action W (Unit {0})
    -- The patch is the list of ports that its JSON text spells.
    pub patch_service : String → String → List ServicePort → Action W (Unit {0})
    pub delete_service : String → String → Action W (Unit {0})
    pub delete_service_account : String → String → Action W (Unit {0})
    -- The data of a secret, `nil` for a key that it lacks being the empty text.
    pub get_secret : String → String → Action W Labels
    pub delete_secret : String → String → Action W (Unit {0})
    -- The names in the list that is returned, `none` for a nil list, and the error, if any.
    pub list_config_map : String → W → (Option (List String) × Option Error) × W
    pub delete_config_map : String → String → Action W (Unit {0})
    pub get_pods : String → Action W (List Pod)
    pub is_pod_being_managed : Pod → W → Bool × W
    pub get_persistent_volume_claim : String → String → Action W PersistentVolumeClaim
    pub get_persistent_volume : String → Action W PersistentVolume
    pub get_storage_provisioner_for_pvc : PersistentVolumeClaim → Action W String
    pub get_pvcs_using_storage_class : String → Action W (List PersistentVolumeClaim)
    pub get_volume_for_persistent_volume_claim : PersistentVolumeClaim → Action W String

  -- `apps.Ops`
  pub record AppsOps : Type 0 where
    -- The daemon sets of a namespace that the label selector picks.
    pub list_daemon_sets : String → String → Action W (List DaemonSet)
    pub get_daemon_set : String → String → Action W DaemonSet
    -- A created daemon set may be nil where there is an error.
    pub create_daemon_set : DaemonSet → W → (Result (Unit {0}) × Option DaemonSet) × W
    pub update_daemon_set : DaemonSet → Action W DaemonSet
    -- With a timeout in nanoseconds.
    pub validate_daemon_set : String → String → ℕ → Action W (Unit {0})
    pub delete_daemon_set : String → String → Action W (Unit {0})
    pub delete_deployment : String → String → Action W (Unit {0})
    pub delete_stateful_set : String → String → Action W (Unit {0})
    pub get_deployments_using_storage_class : String → Action W (List Workload)
    pub get_stateful_sets_using_storage_class : String → Action W (List Workload)

  -- `rbac.Ops`
  pub record RbacOps : Type 0 where
    pub update_cluster_role : Role → Action W (Unit {0})
    pub delete_cluster_role : String → Action W (Unit {0})
    pub delete_cluster_role_binding : String → Action W (Unit {0})
    pub create_role : Role → Action W (Unit {0})
    pub update_role : Role → Action W (Unit {0})
    pub delete_role : String → String → Action W (Unit {0})
    pub create_role_binding : RoleBinding → Action W (Unit {0})
    pub update_role_binding : RoleBinding → Action W (Unit {0})
    pub delete_role_binding : String → String → Action W (Unit {0})

  -- `storage.Ops`
  pub record StorageOps : Type 0 where
    pub get_storage_class_params : StorageClass → Action W Labels
    pub delete_storage_class : String → Action W (Unit {0})

  -- `admissionregistration.Ops`
  pub record AdmissionOps : Type 0 where
    pub delete_mutating_webhook_configuration : String → Action W (Unit {0})

  -- The calls of `kubernetes.Interface`, each with its namespace first.
  pub record KubeClient : Type 0 where
    pub list_storage_classes : Action W (List StorageClass)
    pub get_deployment : String → String → Action W Workload
    pub update_deployment : String → Workload → Action W (Unit {0})
    pub get_stateful_set : String → String → Action W Workload
    pub update_stateful_set : String → Workload → Action W (Unit {0})
