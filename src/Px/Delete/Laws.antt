-- ===== src/Px/Delete/Laws.antt =====
-- What the deletion code relies on of the clients, and the objects that it is meant to delete.
use talisman.Common.{
  String, ◌==◌, starts_with, ◌≡◌, Bool, true, false, ◌&&◌, ◌||◌, Option, none, some, List, [], ◌∷◌,
  ◌++◌, map,
}
use talisman.Go.Results.{Error, Result, ok, err, panic}
use talisman.Kube.Objects.{DaemonSet}
use talisman.Kube.Presence.{
  daemon_set, deployment, stateful_set, cluster_role, cluster_role_binding, role, role_binding,
  service_account, service, secret, config_map, storage_class, webhook, namespace_object, Object,
  object, global, same_object, contains_object, Removes, LeavesAlone,
}
use talisman.Px.Names
use talisman.Px.Ops.{PxClusterOps}
use talisman.Px.Delete.{stripped_cluster_name, cluster_wide_secret, cluster_config_maps}

abbrev pub daemon_set_object : DaemonSet → Object
daemon_set_object ds = object daemon_set ds.namespace ds.name

-- A namespace takes what is in it with it.
abbrev pub namespace_reach : String → Object → Bool
namespace_reach ns o = same_object (global namespace_object ns) o || o.namespace == ns

-- The daemon sets that are listed are those of the namespace that have the label and are present.
abbrev pub ListsDaemonSets :
    {W : Type 0}
    → (W → Object → Bool)
    → (Object → Bool)
    → String
    → W
    → Result (List DaemonSet) × W
    → Type 0
ListsDaemonSets has labelled ns w (ok dss, w') =
    LeavesAlone has w w'
    × ((o : Object)
        → contains_object (map daemon_set_object dss) o
          ≡ (labelled o && o.namespace == ns && has w o))
ListsDaemonSets has labelled ns w (err _, w') = LeavesAlone has w w'
ListsDaemonSets has labelled ns w (panic _, w') = LeavesAlone has w w'

abbrev pub is_config_map_of : String → Object → Bool
is_config_map_of ns o = same_object (object config_map ns o.name) o

-- A list of config maps that is returned without an error has all that are present. One that is
-- returned with an error may have any names, and `listed` says that there is no such list.
abbrev pub ListsConfigMaps :
    {W : Type 0}
    → (W → Object → Bool)
    → Bool
    → String
    → W
    → (Option (List String) × Option Error) × W
    → Type 0
ListsConfigMaps has listed ns w ((none, _), w') = LeavesAlone has w w'
ListsConfigMaps has listed ns w ((some cms, some _), w') = LeavesAlone has w w' × listed ≡ false
ListsConfigMaps has listed ns w ((some cms, none), w') =
    LeavesAlone has w w'
    × ((o : Object)
        → is_config_map_of ns o ≡ true
        → has w o ≡ true
        → contains_object (map (object config_map ns) cms) o ≡ true)

module _ {W : Type 0} (has : W → Object → Bool) (labelled : Object → Bool) (listed : Bool)
    (ops : PxClusterOps W) where
  pub record IsDeleter : Type 0 where
    pub list_daemon_sets_lists :
        (ns : String) (w : W)
        → ListsDaemonSets has labelled ns w
            (ops.k8s_apps.list_daemon_sets ns Names.px_label_selector w)
    pub list_config_map_lists :
        (ns : String) (w : W) → ListsConfigMaps has listed ns w (ops.core_ops.list_config_map ns w)
    pub delete_daemon_set_removes :
        (name ns : String)
        → let x = object daemon_set ns name in
          Removes has x (same_object x) (ops.k8s_apps.delete_daemon_set name ns)
    pub delete_deployment_removes :
        (name ns : String)
        → let x = object deployment ns name in
          Removes has x (same_object x) (ops.k8s_apps.delete_deployment name ns)
    pub delete_stateful_set_removes :
        (name ns : String)
        → let x = object stateful_set ns name in
          Removes has x (same_object x) (ops.k8s_apps.delete_stateful_set name ns)
    pub delete_cluster_role_removes :
        (name : String)
        → let x = global cluster_role name in
          Removes has x (same_object x) (ops.k8s_rbac.delete_cluster_role name)
    pub delete_cluster_role_binding_removes :
        (name : String)
        → let x = global cluster_role_binding name in
          Removes has x (same_object x) (ops.k8s_rbac.delete_cluster_role_binding name)
    pub delete_role_removes :
        (name ns : String)
        → let x = object role ns name in
          Removes has x (same_object x) (ops.k8s_rbac.delete_role name ns)
    pub delete_role_binding_removes :
        (name ns : String)
        → let x = object role_binding ns name in
          Removes has x (same_object x) (ops.k8s_rbac.delete_role_binding name ns)
    pub delete_service_account_removes :
        (name ns : String)
        → let x = object service_account ns name in
          Removes has x (same_object x) (ops.core_ops.delete_service_account name ns)
    pub delete_service_removes :
        (name ns : String)
        → let x = object service ns name in
          Removes has x (same_object x) (ops.core_ops.delete_service name ns)
    pub delete_secret_removes :
        (name ns : String)
        → let x = object secret ns name in
          Removes has x (same_object x) (ops.core_ops.delete_secret name ns)
    pub delete_config_map_removes :
        (name ns : String)
        → let x = object config_map ns name in
          Removes has x (same_object x) (ops.core_ops.delete_config_map name ns)
    pub delete_storage_class_removes :
        (name : String)
        → let x = global storage_class name in
          Removes has x (same_object x) (ops.k8s_storage.delete_storage_class name)
    pub delete_webhook_removes :
        (name : String)
        → let x = global webhook name in
          Removes has x
            (same_object x)
            (ops.k8s_admissions.delete_mutating_webhook_configuration name)
    pub delete_namespace_removes :
        (name : String)
        → Removes has
            (global namespace_object name)
            (namespace_reach name)
            (ops.core_ops.delete_namespace name)

-- The objects of an installation that belong to the whole cluster.
unfoldable pub cluster_objects : List Object
cluster_objects =
    global cluster_role "node-get-put-list-role"
    ∷ global cluster_role "stork-role"
    ∷ global cluster_role "stork-scheduler-role"
    ∷ global cluster_role "portworx-pvc-controller-role"
    ∷ global cluster_role "px-csi-role"
    ∷ global cluster_role_binding "node-role-binding"
    ∷ global cluster_role_binding "stork-role-binding"
    ∷ global cluster_role_binding "stork-scheduler-role-binding"
    ∷ global cluster_role_binding "portworx-pvc-controller-role-binding"
    ∷ global cluster_role_binding "px-csi-role-binding"
    ∷ global storage_class "stork-snapshot-sc"
    ∷ global webhook "stork-webhooks-cfg"
    ∷ global namespace_object "portworx"
    ∷ []

-- The objects that are named after the cluster, and the lock, in the namespaces that they are in.
unfoldable pub named_objects : String → List Object
unfolding stripped_cluster_name cluster_wide_secret
named_objects cluster =
    object secret "portworx" (cluster_wide_secret cluster)
    ∷ object config_map "kube-system" "px-attach-driveset-lock"
    ∷ map (object config_map "kube-system") (cluster_config_maps (stripped_cluster_name cluster))

-- The objects in one namespace of an installation, and the role and its binding in "portworx".
unfoldable pub namespace_objects : String → String → List Object
unfolding stripped_cluster_name
namespace_objects cluster ns =
    object daemon_set ns "portworx-api"
    ∷ object deployment ns "stork"
    ∷ object deployment ns "stork-scheduler"
    ∷ object deployment ns "portworx-pvc-controller"
    ∷ object deployment ns "px-lighthouse"
    ∷ object deployment ns "px-csi-ext"
    ∷ object role "portworx" "px-role"
    ∷ object role ns "px-lh-role"
    ∷ object role_binding "portworx" "px-role-binding"
    ∷ object role_binding ns "px-lh-role-binding"
    ∷ object service_account ns "px-account"
    ∷ object service_account ns "px-lh-account"
    ∷ object service_account ns "stork-account"
    ∷ object service_account ns "stork-scheduler-account"
    ∷ object service_account ns "portworx-pvc-controller-account"
    ∷ object service_account ns "px-csi-account"
    ∷ object service ns "portworx-service"
    ∷ object service ns "portworx-api"
    ∷ object service ns "stork-service"
    ∷ object service ns "px-lighthouse"
    ∷ object service ns "px-csi-service"
    ∷ object stateful_set ns "px-csi-ext"
    ∷ object secret ns "px-osb"
    ∷ object secret ns "px-essential"
    ∷ object config_map ns "px-pure-cloud-drive"
    ∷ object config_map ns "px-lighthouse-config"
    ∷ object config_map ns "stork-config"
    ∷ object config_map ns "px-attach-driveset-lock"
    ∷ map (object config_map ns) (cluster_config_maps (stripped_cluster_name cluster))

unfoldable pub objects_of_namespaces : String → List String → List Object
objects_of_namespaces cluster [] = []
objects_of_namespaces cluster (ns ∷ rest) =
    namespace_objects cluster ns ++ objects_of_namespaces cluster rest

abbrev pub is_one_of : List String → String → Bool
is_one_of [] s = false
is_one_of (x ∷ xs) s = s == x || is_one_of xs s

-- The daemon sets of Portworx, which are known by their label.
unfoldable pub is_px_daemonset : (Object → Bool) → List String → Object → Bool
is_px_daemonset labelled namespaces o = labelled o && is_one_of namespaces o.namespace

-- The config maps of the bring-up queue, which are known by their prefix.
unfoldable pub is_bringup_config_map : Object → Bool
is_bringup_config_map o =
    is_config_map_of "kube-system" o && starts_with o.name "px-bringup-queue-lock"

-- A component of the installation in the given namespaces, where `listed` says whether the config
-- maps of the bring-up queue count.
abbrev pub is_px_component : (Object → Bool) → Bool → List String → String → Object → Bool
is_px_component labelled listed namespaces cluster o =
    is_px_daemonset labelled namespaces o
    || contains_object cluster_objects o
    || contains_object (named_objects cluster) o
    || listed && is_bringup_config_map o
    || contains_object (objects_of_namespaces cluster namespaces) o

-- A component, or anything in the namespace that is deleted whole.
abbrev pub in_reach : (Object → Bool) → List String → String → Object → Bool
in_reach labelled namespaces cluster o =
    is_px_component labelled true namespaces cluster o || o.namespace == "portworx"
