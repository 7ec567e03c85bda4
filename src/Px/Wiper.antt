-- ===== src/Px/Wiper.antt =====
-- pkg/cluster/px/px.go: `runPXNodeWiper` and `runDaemonSet`.
pub mod Cleaned
use talisman.Common.{
  ℕ, String, ◌<>◌, ◌==◌, Bool, true, false, Option, none, some, List, [], ◌∷◌, if◌then◌else◌,
}
use talisman.Go.Results.{
  errorf, nil_pointer, Result, ok, err, panic, Action, crash, of_result, ◌>>◌, ignore_not_found,
  with_defer, logged,
}
use talisman.Go.Retry.{Attempt, done, again, crashed, Task, Retrier}
use talisman.Kube.Objects.{Labels, Affinity, Probe, VolumeMount, Volume, DaemonSet}
use talisman.K8sutils.Instance.{default_retry_interval}
use talisman.Px.Names.{
  px_node_wiper_daemon_set_name, px_node_wiper_namespace, talisman_service_account,
  default_node_wiper_image, default_node_wiper_tag, pks_persistent_store_root,
  px_node_wiper_timeout, daemonset_delete_timeout,
}
use talisman.Px.Ops.{PxClusterOps}

abbrev mount : String → String → VolumeMount
mount name path = record { name = name; mount_path = path; read_only = false }

abbrev pub wiper_mounts : List VolumeMount
wiper_mounts =
    mount "etcpwx" "/etc/pwx"
    ∷ mount "hostproc" "/hostproc"
    ∷ mount "optpwx" "/opt/pwx"
    ∷ mount "sockpwx" "/var/lib/osd/driver"
    ∷ mount "dbus" "/var/run/dbus"
    ∷ mount "sysdmount" "/etc/systemd/system"
    ∷ mount "dev" "/dev"
    ∷ mount "lvm" "/run/lvm"
    ∷ mount "etc-multipath" "/etc/multipath"
    ∷ record { name = "run-udev-data"; mount_path = "/run/udev/data"; read_only = true }
    ∷ mount "sys" "/sys"
    ∷ mount "cores" "/var/cores"
    ∷ []

abbrev host_volume : String → String → Volume
host_volume name path = record { name = name; host_path = some path; create_directory = false }

abbrev created_volume : String → String → Volume
created_volume name path = record { name = name; host_path = some path; create_directory = true }

-- The volumes, for the root of the host paths of Portworx and the directory of cores.
abbrev pub wiper_volumes : String → String → List Volume
wiper_volumes root cores =
    host_volume "etcpwx" (root <> "/etc/pwx")
    ∷ host_volume "hostproc" "/proc"
    ∷ host_volume "optpwx" (root <> "/opt/pwx")
    ∷ host_volume "sockpwx" (root <> "/var/lib/osd/driver")
    ∷ host_volume "dbus" "/var/run/dbus"
    ∷ host_volume "sysdmount" "/etc/systemd/system"
    ∷ host_volume "dev" "/dev"
    ∷ created_volume "etc-multipath" "/etc/multipath"
    ∷ created_volume "lvm" "/run/lvm"
    ∷ host_volume "run-udev-data" "/run/udev/data"
    ∷ host_volume "sys" "/sys"
    ∷ host_volume "cores" (root <> cores)
    ∷ []

abbrev wiper_labels : Labels
wiper_labels = ("name", px_node_wiper_daemon_set_name) ∷ []

-- The daemon set of the wiper; `debug` is whether debug messages are logged.
unfoldable pub wiper_daemonset : Bool → String → String → String → String → Affinity → DaemonSet
wiper_daemonset debug cores root image tag affinity =
    let image = if image == "" then default_node_wiper_image else image in
    let tag = if tag == "" then default_node_wiper_tag else tag in
    record {
      name = px_node_wiper_daemon_set_name;
      namespace = px_node_wiper_namespace;
      uid = "";
      labels = wiper_labels;
      annotations = none;
      selector = wiper_labels;
      template_labels = wiper_labels;
      pod = record {
        host_pid = true;
        host_network = false;
        affinity = affinity;
        containers =
            record {
              name = px_node_wiper_daemon_set_name;
              image = image <> (":" <> tag);
              image_pull_policy = "Always";
              args = if debug then "--debug" ∷ "-w" ∷ "-r" ∷ [] else "-w" ∷ "-r" ∷ [];
              env = [];
              privileged = true;
              readiness_probe = some (Probe.exec_after 120 ("cat" ∷ "/tmp/px-node-wipe-done" ∷ []));
              volume_mounts = wiper_mounts;
            }
            ∷ [];
        restart_policy = "Always";
        service_account_name = talisman_service_account;
        volumes =
            wiper_volumes root (if root == pks_persistent_store_root then "/cores" else cores);
      };
      observed_generation = 0;
    }

module _ (R : Retrier) {W : Type 0} (ops : PxClusterOps W) where
  -- Any error of the read counts as the absence of the daemon set.
  abbrev pub still_present : DaemonSet → Result DaemonSet → Attempt
  still_present ds (ok _) =
      again (errorf "daemonset: [%s] %s is still present" (ds.namespace ∷ ds.name ∷ []))
  still_present ds (err _) = done
  still_present ds (panic p) = crashed p

  abbrev pub absent_task : DaemonSet → Task W
  absent_task ds w =
      let (r, w') = ops.k8s_apps.get_daemon_set ds.name ds.namespace w in (still_present ds r, w')

  -- The log message reads the daemon set before the error is looked at: one that is nil is a panic.
  abbrev pub after_create : ℕ → Result (Unit {0}) → Option DaemonSet → Action W (Unit {0})
  after_create timeout r none = crash nil_pointer
  after_create timeout r (some made) =
      of_result r
      >> with_defer (logged (ops.k8s_apps.delete_daemon_set made.name made.namespace))
          (ops.k8s_apps.validate_daemon_set made.name made.namespace timeout)

  abbrev pub create_and_validate : DaemonSet → ℕ → Action W (Unit {0})
  create_and_validate ds timeout w =
      let (answer, w') = ops.k8s_apps.create_daemon_set ds w in
      after_create timeout answer.0 answer.1 w'

  -- `runDaemonSet`
  unfoldable pub run_daemon_set : DaemonSet → ℕ → Action W (Unit {0})
  run_daemon_set ds timeout = do
    ignore_not_found (ops.k8s_apps.delete_daemon_set ds.name ds.namespace)
    R.retry W daemonset_delete_timeout default_retry_interval (absent_task ds)
    create_and_validate ds timeout

  -- `runPXNodeWiper`, for the value of the variable `cores` of the package.
  unfoldable pub run_px_node_wiper :
      Bool → String → String → String → String → Affinity → Action W (Unit {0})
  unfolding wiper_daemonset run_daemon_set
  run_px_node_wiper debug cores root image tag affinity =
      run_daemon_set (wiper_daemonset debug cores root image tag affinity) px_node_wiper_timeout
