-- ===== src/Tests/Guards.antt =====
-- Upgrades whose checks are made on a small cluster.
use talisman.Common.{String, ◌≡◌, refl, some, List, [], ◌∷◌, map}
use mathlib.Core.Path.{subst}
use talisman.Go.Results.{Result, ok, pure, Action}
use talisman.Kube.Objects.{Container, DaemonSet}
use talisman.Px.Ops.{PxClusterOps}
use talisman.Tests.Rollout.{px_daemonset}
use talisman.Go.Numbers.{sprint_int, atoi}
use talisman.K8sutils.Apps.{get_px_shared_apps}
use talisman.Go.Retry.{rounds, bounded_retrier}
use talisman.Openstorage.{VolumeDriver, ClusterManager}
use talisman.Px.Upgrade.{upgrade}
use talisman.Px.Upgrade.Quiet.{pure-Quiet}
use talisman.Px.Upgrade.Reading.{whole, Reads, IsReader}
use talisman.Px.Upgrade.Checks.{Verdict, Admitted, AreReaders}
use talisman.Px.Upgrade.Guarded.{upgrade-Admitted}
use talisman.Tests.Scaling.{World, parse, start}
use talisman.Tests.Upgrade.{ops, driver, spec, opts}

abbrev manager : ClusterManager World
manager = record { enumerate = pure [] }

abbrev new_driver_client : String → String → String → String → Action World (VolumeDriver World)
new_driver_client _ _ _ _ = pure driver

abbrev new_cluster_client : String → String → Action World (ClusterManager World)
new_cluster_client _ _ = pure manager

abbrev read_all : String → Result (List (List String))
read_all s = ok ((s ∷ []) ∷ [])

-- The clients of the cluster, with a daemon set that has the arguments of a cluster.
abbrev with_args : DaemonSet → DaemonSet
with_args ds = record ds {
  pod = record (ds.pod) {
    containers =
        map
          (λ (c : Container). record c { args = "-c" ∷ "c1" ∷ "-k" ∷ "etcd:http://etcd:2379" ∷ [] })
          ds.pod.containers;
  };
}

abbrev configured : PxClusterOps World
configured = record ops {
  k8s_apps = record (ops.k8s_apps) {
    list_daemon_sets = λ _ _. pure (with_args (px_daemonset 1 "portworx/oci-monitor:2.0") ∷ []);
  };
}

configured-IsReader : IsReader configured
configured-IsReader = record {
  get_service_reads = λ _ _. pure-Quiet whole _;
  list_daemon_sets_reads = λ _ _. pure-Quiet whole _;
  validate_daemon_set_reads = λ _ _ _. pure-Quiet whole _;
  get_pods_reads = λ _. pure-Quiet whole _;
  is_pod_being_managed_reads = λ _ w. refl;
  get_claim_reads = λ _ _. pure-Quiet whole _;
  get_volume_reads = λ _. pure-Quiet whole _;
  get_provisioner_reads = λ _. pure-Quiet whole _;
  get_secret_reads = λ _ _. pure-Quiet whole _;
}

abbrev ReadsNodes : Result (ClusterManager World) → Type 0
ReadsNodes (ok m) = Reads m.enumerate
ReadsNodes _ = Unit

clients-AreReaders : AreReaders new_driver_client new_cluster_client
clients-AreReaders = record {
  new_driver_client_reads = λ _ _ _ _. pure-Quiet whole _;
  new_cluster_client_reads = λ _ _. pure-Quiet whole _;
  enumerate_reads = λ _ _ w m e. subst ReadsNodes e (pure-Quiet whole (ok []));
}

-- The upgrade passes its checks and succeeds.
admitted_run :
    (upgrade
      (bounded_retrier 3)
      configured
      parse
      new_driver_client
      new_cluster_client
      read_all
      (some spec)
      opts
      start).0
    ≡ ok tt
unfolding upgrade get_px_shared_apps rounds sprint_int atoi
admitted_run = refl

upgrade-Admitted_example :
    Verdict (Admitted configured new_cluster_client read_all (some spec) start) start (
      upgrade
        (bounded_retrier 3)
        configured
        parse
        new_driver_client
        new_cluster_client
        read_all
        (some spec)
        opts
        start)
upgrade-Admitted_example =
    upgrade-Admitted (bounded_retrier 3) configured parse new_driver_client new_cluster_client
      read_all configured-IsReader clients-AreReaders (some spec) opts start
