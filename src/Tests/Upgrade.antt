-- ===== src/Tests/Upgrade.antt =====
-- An upgrade of a cluster with shared applications.
use talisman.Common.{refl, Option, some, [], ◌∷◌}
use talisman.Go.Results.{is_over, pure}
use talisman.Go.Retry.{bounded_retrier, bounded_retrier-IsRetry}
use talisman.Api.{ClusterSpec}
use talisman.Openstorage.{VolumeDriver}
use talisman.K8sutils.Scaling.Tasks.{restore_scaled_apps_replicas}
use talisman.Px.Ops.{PxClusterOps, UpgradeOptions, platform_type_default}
use talisman.Px.Upgrade.{upgrade_scaled_down}
use talisman.Px.Upgrade.Quiet.{pure-Quiet}
use talisman.Px.Upgrade.Calls.{LeavesApps}
use talisman.Px.Upgrade.Restored.{Ended, body, upgrade_scaled_down-GivesBack}
use talisman.Tests.Clients.{no_core, no_apps, no_rbac, no_storage, no_admissions}
use talisman.Tests.Scaling.{
  World, view, client, inventory, kube-IsAppStore, client-IsListed, parse, parse-ReadsCounts, start,
  scaled_down, runs, start-AreFresh, distinct,
}
use talisman.Tests.Rollout.{px_daemonset}

abbrev pub ops : PxClusterOps World
ops = record {
  core_ops = record (no_core World) {
    create_namespace = λ _. pure tt;
    get_nodes = pure ("n1" ∷ "n2" ∷ []);
    get_service = λ name ns. pure (record {
      name = name;
      namespace = ns;
      labels = [];
      selector = [];
      service_type = "ClusterIP";
      cluster_ip = "10.0.0.1";
      ports = [];
    });
    patch_service = λ _ _ _. pure tt;
    get_pvcs_using_storage_class = λ _. pure [];
  };
  k8s_apps = record (no_apps World) {
    list_daemon_sets = λ _ _. pure (px_daemonset 1 "portworx/oci-monitor:2.0" ∷ []);
    update_daemon_set = λ ds. pure ds;
    get_daemon_set = λ _ _. pure (px_daemonset 2 "portworx/oci-monitor:3.0");
    validate_daemon_set = λ _ _ _. pure tt;
  };
  k8s_rbac = record (no_rbac World) {
    update_cluster_role = λ _. pure tt;
    create_role = λ _. pure tt;
    create_role_binding = λ _. pure tt;
  };
  k8s_storage = no_storage World;
  k8s_admissions = no_admissions World;
  utils = client;
  docker_registry_secret = "";
  platform = platform_type_default;
  installed_namespaces = "kube-system" ∷ [];
}

abbrev pub driver : VolumeDriver World
driver = record { inspect = λ _. pure [] }

abbrev pub spec : ClusterSpec
spec = record {
  px_image = "";
  px_tag = "3.0";
  oci_mon_image = "portworx/oci-monitor";
  oci_mon_tag = "3.0";
}

abbrev pub opts : Option UpgradeOptions
opts = some (record { shared_apps_scale_down = "on"; timeout_per_node = 600 })

ops-LeavesApps : LeavesApps view ops driver
ops-LeavesApps = record {
  list_storage_classes_quiet = pure-Quiet view _;
  get_storage_class_params_quiet = λ _. pure-Quiet view _;
  get_pvcs_quiet = λ _. pure-Quiet view _;
  get_volume_quiet = λ _. pure-Quiet view _;
  inspect_quiet = λ _. pure-Quiet view _;
  update_cluster_role_quiet = λ _. pure-Quiet view _;
  create_namespace_quiet = λ _. pure-Quiet view _;
  create_role_quiet = λ _. pure-Quiet view _;
  update_role_quiet = λ _. pure-Quiet view _;
  create_role_binding_quiet = λ _. pure-Quiet view _;
  update_role_binding_quiet = λ _. pure-Quiet view _;
  list_daemon_sets_quiet = λ _ _. pure-Quiet view _;
  get_daemon_set_quiet = λ _ _. pure-Quiet view _;
  update_daemon_set_quiet = λ _. pure-Quiet view _;
  create_daemon_set_same = λ _ w key. refl;
  validate_daemon_set_quiet = λ _ _ _. pure-Quiet view _;
  get_nodes_quiet = pure-Quiet view _;
  get_service_quiet = λ _ _. pure-Quiet view _;
  create_service_quiet = λ _. pure-Quiet view _;
  patch_service_quiet = λ _ _ _. pure-Quiet view _;
}

upgrade_scaled_down-GivesBack_example :
    let ended =
      body view
        (bounded_retrier 3)
        (bounded_retrier-IsRetry 3)
        ops
        driver
        ops-LeavesApps
        inventory
        kube-IsAppStore
        client-IsListed
        parse
        parse-ReadsCounts
        spec
        opts
        scaled_down in
    let restored = restore_scaled_apps_replicas (bounded_retrier 3) client parse ended.1 in
    Ended view start scaled_down
      (is_over ended.0)
      restored.0
      (upgrade_scaled_down (bounded_retrier 3) ops parse driver spec opts start).1
upgrade_scaled_down-GivesBack_example =
    upgrade_scaled_down-GivesBack view (bounded_retrier 3) (bounded_retrier-IsRetry 3) ops driver
      ops-LeavesApps inventory kube-IsAppStore client-IsListed parse parse-ReadsCounts spec opts
      start scaled_down distinct start-AreFresh runs
