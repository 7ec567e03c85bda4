-- ===== src/Tests/Config.antt =====
-- A daemon set with the arguments of a cluster, and the deletion of it.
use talisman.Common.{String, ◌≡◌, refl, Bool, true, false, Option, none, some, List, [], ◌∷◌}
use talisman.Go.Results.{Result, ok, pure}
use talisman.Go.Text.{split}
use talisman.Kube.Objects.{DaemonSet}
use talisman.Px.Ops.{PxClusterOps, DeleteOptions, platform_type_default, platform_type_pks}
use talisman.Px.Config.Args.{no_options}
use talisman.Px.Config.{Parsed, parse_config_from_daemonset}
use talisman.Px.Config.Found.{Usable, parse_config_from_daemonset-Usable}
use talisman.Px.Kvdb.{KvdbLibrary, kvdb_url, drop_first}
use talisman.Go.Text.Splitting.{is_plain, lacks}
use talisman.Px.Kvdb.Endpoints.{kvdb_url-endpoint}
use talisman.Tests.Clients.{no_core, no_apps, no_rbac, no_storage, no_instance, unavailable}

plain : (is_plain "//etcd" ≡ true) × (is_plain "2379" ≡ true)
unfolding lacks
plain = (refl, refl)

kvdb_url-endpoint_example :
    kvdb_url (drop_first (split ":" "etcd:http://etcd:2379")) ≡ ok "http://etcd:2379"
kvdb_url-endpoint_example = kvdb_url-endpoint "http" "//etcd" "2379" refl plain.0 plain.1 refl refl

abbrev px_daemonset : DaemonSet
px_daemonset = record {
  name = "portworx";
  namespace = "kube-system";
  uid = "u1";
  labels = ("name", "portworx") ∷ [];
  annotations = none;
  selector = [];
  template_labels = [];
  pod = record {
    host_pid = false;
    host_network = true;
    affinity = none;
    containers =
        record {
          name = "portworx";
          image = "oci:2";
          image_pull_policy = "Always";
          args = "-c" ∷ "c1" ∷ "-userpwd" ∷ "$USER:pw" ∷ "-k" ∷ "etcd:http://etcd:2379" ∷ [];
          env = record { name = "USER"; value = "admin"; value_from = none } ∷ [];
          privileged = true;
          readiness_probe = none;
          volume_mounts = [];
        }
        ∷ [];
    restart_policy = "Always";
    service_account_name = "px-account";
    volumes =
        record {
          name = "optpwx";
          host_path = some "/var/vcap/store/opt/pwx";
          create_directory = false;
        }
        ∷ [];
  };
  observed_generation = 1;
}

abbrev ops : PxClusterOps Bool
ops = record {
  core_ops = record (no_core Bool) {
    list_config_map = λ _ w. ((some [], none), w);
    delete_service_account = λ _ _. pure tt;
    delete_service = λ _ _. pure tt;
    delete_secret = λ _ _. pure tt;
    delete_config_map = λ _ _. pure tt;
    delete_namespace = λ _. pure tt;
  };
  k8s_apps = record (no_apps Bool) {
    list_daemon_sets = λ _ _. pure (px_daemonset ∷ []);
    delete_daemon_set = λ _ _. pure tt;
    delete_deployment = λ _ _. pure tt;
    delete_stateful_set = λ _ _. pure tt;
  };
  k8s_rbac = record (no_rbac Bool) {
    delete_cluster_role = λ _. pure tt;
    delete_cluster_role_binding = λ _. pure tt;
    delete_role = λ _ _. pure tt;
    delete_role_binding = λ _ _. pure tt;
  };
  k8s_storage = record (no_storage Bool) { delete_storage_class = λ _. pure tt };
  k8s_admissions = record { delete_mutating_webhook_configuration = λ _. pure tt };
  utils = no_instance Bool;
  docker_registry_secret = "";
  platform = platform_type_default;
  installed_namespaces = "kube-system" ∷ [];
}

-- A reader of CSV text that takes all of it as one field.
abbrev read_all : String → Result (List (List String))
read_all s = ok ((s ∷ []) ∷ [])

abbrev config : Parsed
config = record {
  endpoints = "etcd:http://etcd:2379" ∷ [];
  opts = record no_options { username = some "admin"; password = some "pw" };
  cluster_name = "c1";
  platform = platform_type_pks;
  affinity = none;
  error = none;
}

parse_config_from_daemonset-Usable_example : Usable (parse_config_from_daemonset ops read_all true)
parse_config_from_daemonset-Usable_example = parse_config_from_daemonset-Usable ops read_all true

-- A library of kvdb that is never reached.
abbrev library : KvdbLibrary Bool
library = record {
  Client = Unit;
  version = λ _ _ _. unavailable;
  new_client = λ _ _ _ _. unavailable;
  delete_tree = λ _ _. unavailable;
  etcd_base_version = "v2";
  etcd_version3 = "v3";
  etcd2_name = "etcd-kv";
  etcd3_name = "etcdv3-kv";
}

abbrev wiping : Option DeleteOptions
wiping = some (record { wipe_cluster = true; wiper_image = ""; wiper_tag = "" })
