-- ===== src/Px/Remove.antt =====
-- pkg/cluster/px/px.go: `Delete`.
pub mod BestEffort
use talisman.Common.{String, Bool, true, false, Option, none, some, List, [], if◌then◌else◌}
use talisman.Go.Results.{
  Error, using_internal_etcd, wrapped, Result, Action, pure, raise, ◌>>=◌, ◌>>◌, logged,
}
use talisman.Go.Retry.{Retrier}
use talisman.Px.Names.{pks_persistent_store_root}
use talisman.Px.Ops.{
  PlatformType, platform_type_default, platform_type_pks, PxClusterOps, DeleteOptions,
}
use talisman.Px.Config.{Parsed, parse_config_from_daemonset}
use talisman.Px.Delete.{delete_all_px_components}
use talisman.Px.Kvdb.{KvdbLibrary, wipe_px_kvdb}
use talisman.Px.Wiper.{run_px_node_wiper}

abbrev pub check_config : {W : Type 0} → Option Error → Action W (Unit {0})
check_config none = pure tt
check_config (some using_internal_etcd) = pure tt
check_config (some e) =
    raise (wrapped "Failed to parse PX config from Daemonset for deleting PX due to err: %v" [] e)

abbrev pub is_internal : Option Error → Bool
is_internal (some using_internal_etcd) = true
is_internal _ = false

abbrev pub host_path_root : PlatformType → String
host_path_root platform_type_default = "/"
host_path_root platform_type_pks = pks_persistent_store_root

module _ (R : Retrier) {W : Type 0} (ops : PxClusterOps W) (K : KvdbLibrary W)
    (read_all : String → Result (List (List String))) (debug : Bool) (cores : String) where
  abbrev pub wipe_kvdb : Parsed → Action W (Unit {0})
  wipe_kvdb p =
      if is_internal p.error
      then pure tt
      else logged (wipe_px_kvdb K p.endpoints p.opts p.cluster_name)

  -- Both steps are best effort: their errors are only logged.
  abbrev pub wipe : Parsed → Option DeleteOptions → Action W (Unit {0})
  wipe p none = pure tt
  wipe p (some opts) =
      if opts.wipe_cluster
      then logged (
          run_px_node_wiper R ops debug cores (host_path_root p.platform) opts.wiper_image
            opts.wiper_tag p.affinity)
        >> wipe_kvdb p
      else pure tt

  -- `Delete`
  unfoldable pub delete : Option DeleteOptions → Action W (Unit {0})
  unfolding parse_config_from_daemonset delete_all_px_components run_px_node_wiper wipe_px_kvdb
  delete opts = do
    parsed ← parse_config_from_daemonset ops read_all
    check_config parsed.error
    delete_all_px_components ops parsed.cluster_name
    wipe parsed opts
