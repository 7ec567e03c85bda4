-- ===== src/Cmd.antt =====
-- cmd/talisman/talisman.go: the operations of the command line.
pub mod Interrupted
use talisman.Common.{
  ℕ, String, ◌==◌, Bool, true, false, ◌||◌, Option, none, some, List, [], ◌∷◌, if◌then◌else◌,
}
use talisman.Go.Results.{errorf, wrapped, Result, Action, pure, raise, ◌>>=◌, ◌>>◌, catch}
use talisman.Go.Retry.{Retrier}
use talisman.Kube.Clients.{CoreOps, AppsOps, RbacOps, StorageOps, AdmissionOps}
use talisman.Api.{ClusterSpec}
use talisman.Openstorage.{VolumeDriver, ClusterManager}
use talisman.K8sutils.Instance.{Instance}
use talisman.K8sutils.Scaling.Change.{IntOrString}
use talisman.K8sutils.Scaling.Tasks.{restore_scaled_apps_replicas}
use talisman.Px.Ops.{PxClusterOps, UpgradeOptions, DeleteOptions, new_px_cluster_provider}
use talisman.Px.Kvdb.{KvdbLibrary}
use talisman.Px.Upgrade.{upgrade}
use talisman.Px.Remove.{delete}

-- The values of the flags; those that only concern logging are but for the level left out.
pub record Flags : Type 0 where
  pub op : String
  pub new_px_image : String
  pub new_px_tag : String
  pub new_oci_mon_image : String
  pub new_oci_mon_tag : String
  pub wiper_image : String
  pub wiper_tag : String
  pub docker_registry_secret : String
  pub kubeconfig : String
  pub shared_apps_scale_down : String
  pub wipe_cluster : Bool
  pub upgrade_timeout_per_node : ℕ
  pub log_level_debug : Bool
  pub log_level_trace : Bool

-- The values of the flags that are not given.
abbrev pub default_flags : Flags
default_flags = record {
  op = "upgrade";
  new_px_image = "";
  new_px_tag = "";
  new_oci_mon_image = "portworx/oci-monitor";
  new_oci_mon_tag = "";
  wiper_image = "";
  wiper_tag = "";
  docker_registry_secret = "";
  kubeconfig = "";
  shared_apps_scale_down = "auto";
  wipe_cluster = false;
  upgrade_timeout_per_node = 600;
  log_level_debug = false;
  log_level_trace = false;
}

-- What the program takes from the libraries: the clients, the reader of CSV text, `intstr.Parse`.
pub record Libraries (W : Type 0) : Type 1 where
  pub retrier : Retrier
  pub new_utils : String → Action W (Instance W)
  pub core : CoreOps W
  pub apps : AppsOps W
  pub rbac : RbacOps W
  pub storage : StorageOps W
  pub admissions : AdmissionOps W
  pub kvdb : KvdbLibrary W
  pub new_driver_client : String → String → String → String → Action W (VolumeDriver W)
  pub new_cluster_client : String → String → Action W (ClusterManager W)
  pub read_all : String → Result (List (List String))
  pub parse : String → IntOrString

-- `logrus.Fatalf` ends the program; here its message is the error of the run.
abbrev pub or_fatal : {W A : Type 0} → String → List String → Action W A → Action W A
or_fatal format args m = catch m λ e. raise (wrapped format args e)

module _ {W : Type 0} (lib : Libraries W) (flags : Flags) where
  abbrev pub new_provider : Action W (PxClusterOps W)
  new_provider = or_fatal "failed to instantiate PX cluster provider. err: %v" [] (
      new_px_cluster_provider (lib.new_utils flags.kubeconfig) lib.core lib.apps lib.rbac
        lib.storage lib.admissions flags.docker_registry_secret)

  -- `doUpgrade`
  unfoldable pub do_upgrade : Action W (Unit {0})
  unfolding new_px_cluster_provider upgrade
  do_upgrade =
      if flags.new_oci_mon_tag == ""
      then raise
          (errorf "error: new OCI monitor tag not specified for %s operation" (flags.op ∷ []))
      else new_provider >>= λ inst.
          or_fatal "failed to upgrade portworx to version: %v. err: %v" (flags.new_oci_mon_tag ∷ [])
            (upgrade lib.retrier inst lib.parse lib.new_driver_client lib.new_cluster_client
              lib.read_all
              (some (record {
                px_image = flags.new_px_image;
                px_tag = flags.new_px_tag;
                oci_mon_image = flags.new_oci_mon_image;
                oci_mon_tag = flags.new_oci_mon_tag;
              }))
              (some (record {
                shared_apps_scale_down = flags.shared_apps_scale_down;
                timeout_per_node = flags.upgrade_timeout_per_node;
              })))

  -- `doRestoreSharedApps`
  unfoldable pub do_restore_shared_apps : Action W (Unit {0})
  unfolding restore_scaled_apps_replicas
  do_restore_shared_apps = do
    inst ← or_fatal "failed to restore shared apps. err: %v" [] (lib.new_utils flags.kubeconfig)
    or_fatal "failed to restore shared apps. err: %v" []
        (restore_scaled_apps_replicas lib.retrier inst lib.parse)

  -- `doDelete`
  unfoldable pub do_delete : Action W (Unit {0})
  unfolding new_px_cluster_provider delete
  do_delete = do
    inst ← new_provider
    or_fatal "Failed to delete PX cluster. err: %v" [] (
        delete lib.retrier inst lib.kvdb lib.read_all
          (flags.log_level_trace || flags.log_level_debug) "/var/cores"
          (some (record {
            wipe_cluster = flags.wipe_cluster;
            wiper_image = flags.wiper_image;
            wiper_tag = flags.wiper_tag;
          })))

  -- `main`, after the flags have been read.
  unfoldable pub main : Action W (Unit {0})
  unfolding do_upgrade do_restore_shared_apps do_delete
  main =
      if flags.op == ""
      then raise (errorf "error: no operation given for the PX cluster" [])
      else if flags.op == "upgrade"
      then do_upgrade
      else if flags.op == "restoresharedapps"
      then do_restore_shared_apps
      else if flags.op == "delete"
      then do_delete
      else raise (errorf "error: invalid operation: %s" (flags.op ∷ []))
