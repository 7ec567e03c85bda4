-- ===== src/Tests/Rollout.antt =====
-- A cluster that keeps the containers of its daemon sets.
use talisman.Common.{
  ℕ, String, ◌==◌, ◌≡◌, refl, true, false, Option, none, some, List, [], ◌∷◌, if◌then◌else◌,
}
use talisman.Go.Results.{in_goroutine, ok, pure}
use talisman.Go.Retry.{rounds, bounded_retrier, bounded_retrier-IsRetry}
use talisman.Kube.Objects.{Container, DaemonSet}
use talisman.Openstorage.{VolumeDriver}
use talisman.Px.Ops.{PxClusterOps, platform_type_default}
use talisman.Px.Api.{override_ports, default_target_ports}
use talisman.Px.Api.Ports.{override_ports-last}
use talisman.Px.Detach.{detach_task}
use talisman.Px.Detach.Detached.{Detached, detach_task-Detached}
use talisman.Px.Rollout.Plan.{plan, Sound, plan-Sound}
use talisman.Px.Rollout.Trigger.{nothing_started, trigger_task}
use talisman.Px.Rollout.Wait.{generation_task}
use talisman.Px.Rollout.Sending.{Lists, IsDaemonStore}
use talisman.Px.Rollout.Started.{AllStarted, trigger_task-AllStarted}
use talisman.Px.Rollout.Observed.{Observed, generation_task-Observed}
use talisman.Tests.Clients.{no_core, no_apps, no_rbac, no_storage, no_admissions, no_instance}

abbrev container : String → String → Container
container name image = record {
  name = name;
  image = image;
  image_pull_policy = "Always";
  args = [];
  env = [];
  privileged = true;
  readiness_probe = none;
  volume_mounts = [];
}

abbrev pub with_px : List Container → ℕ → DaemonSet
with_px containers generation = record {
  name = "portworx";
  namespace = "kube-system";
  uid = "u1";
  labels = ("name", "portworx") ∷ [];
  annotations = some [];
  selector = [];
  template_labels = [];
  pod = record {
    host_pid = false;
    host_network = true;
    affinity = none;
    containers = containers;
    restart_policy = "Always";
    service_account_name = "px-account";
    volumes = [];
  };
  observed_generation = generation;
}

abbrev pub px_daemonset : ℕ → String → DaemonSet
px_daemonset generation image =
    with_px (container "csi" "csi:1" ∷ container "portworx" image ∷ []) generation

-- The containers of the daemon sets, by uid.
abbrev World : Type 0
World = String → Option (List Container)

abbrev stored : World → String → Option (List Container)
stored w u = w u

abbrev nothing : World
nothing u = none

abbrev listed : Option (List Container) → List DaemonSet
listed none = []
listed (some cs) = with_px cs 1 ∷ []

abbrev ops : PxClusterOps World
ops = record {
  core_ops = no_core World;
  k8s_apps = record (no_apps World) {
    list_daemon_sets = λ _ _ w. (ok (listed (w "u1")), w);
    update_daemon_set = λ ds w. (ok ds, λ u. if ds.uid == u then some ds.pod.containers else w u);
    get_daemon_set = λ _ _. pure (px_daemonset 2 "oci:3");
  };
  k8s_rbac = no_rbac World;
  k8s_storage = no_storage World;
  k8s_admissions = no_admissions World;
  utils = no_instance World;
  docker_registry_secret = "";
  platform = platform_type_default;
  installed_namespaces = "kube-system" ∷ [];
}

plan-Sound_example :
    Sound "oci:3"
      (px_daemonset 1 "oci:2").pod.containers
      (plan "oci:3" (px_daemonset 1 "oci:2").pod.containers)
plan-Sound_example = plan-Sound "oci:3" (px_daemonset 1 "oci:2").pod.containers

generation_task-Observed_example :
    let expected : List (String × ℕ) = ("u1", 2) ∷ [] in
    let (r, w') =
      rounds in_goroutine 3 (generation_task ops expected (px_daemonset 1 "oci:2")) nothing in
    Observed ops expected (px_daemonset 1 "oci:2") r w'
generation_task-Observed_example =
    generation_task-Observed ops (("u1", 2) ∷ []) (px_daemonset 1 "oci:2") (bounded_retrier 3)
      (bounded_retrier-IsRetry 3) 0 0 nothing

override_ports-last_example :
    override_ports
      (record { name = "px-api"; protocol = "TCP"; port = 9001; target_port = 17001 } ∷ [])
      default_target_ports
      9001
    ≡ some 17001
override_ports-last_example =
    override_ports-last
      (record { name = "px-api"; protocol = "TCP"; port = 9001; target_port = 17001 } ∷ [])
      default_target_ports 9001

abbrev driver : VolumeDriver World
driver = record { inspect = λ _. pure (record { name = "v"; is_attached = false } ∷ []) }

detach_task-Detached_example :
    let (r, w') = rounds in_goroutine 3 (detach_task ops driver ("v" ∷ [])) nothing in
    Detached ops driver ("v" ∷ []) r w'
detach_task-Detached_example =
    detach_task-Detached ops driver ("v" ∷ []) (bounded_retrier 3) (bounded_retrier-IsRetry 3) 0 0
      nothing

lists : (w : World) → Lists stored (ok (listed (w "u1")), w)
lists w = go (w "u1") refl
  where
    go : (o : Option (List Container)) → w "u1" ≡ o → Lists stored (ok (listed o), w)
    go none e = (tt, tt)
    go (some cs) e = ((refl, tt), (e, tt))

ops-IsDaemonStore : IsDaemonStore stored ops "kube-system"
ops-IsDaemonStore = record {
  list_daemon_sets_lists = lists;
  update_daemon_set_stores = λ ds w u. refl;
}

abbrev start : World
start u = if "u1" == u then some (px_daemonset 1 "oci:2").pod.containers else none

trigger_task-AllStarted_example :
    let (r, s) = rounds in_goroutine 3 (trigger_task ops "oci:3") (start, nothing_started) in
    AllStarted stored "oci:3" ops "kube-system" ops-IsDaemonStore r s
trigger_task-AllStarted_example =
    trigger_task-AllStarted stored "oci:3" ops "kube-system" ops-IsDaemonStore (bounded_retrier 3)
      (bounded_retrier-IsRetry 3) refl 0 0 start
