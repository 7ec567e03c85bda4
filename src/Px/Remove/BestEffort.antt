-- ===== src/Px/Remove/BestEffort.antt =====
-- What comes of the two steps of wiping in the result of `Delete`.
use talisman.Common.{String, Bool, Option, none, some, List, if◌then◌else◌}
use talisman.Go.Results.{Result, ok, err, panic, Action}
use talisman.Go.Retry.{Retrier}
use talisman.Px.Ops.{PxClusterOps, DeleteOptions}
use talisman.Px.Config.{Parsed}
use talisman.Px.Kvdb.{KvdbLibrary, wipe_px_kvdb}
use talisman.Px.Wiper.{run_px_node_wiper}
use talisman.Px.Remove.{is_internal, host_path_root}

-- The result of two steps whose errors do not count, while a panic of one is that of both.
abbrev pub settled : Result (Unit {0}) → Result (Unit {0})
settled (ok _) = ok tt
settled (err _) = ok tt
settled (panic p) = panic p

abbrev pub best_effort : Result (Unit {0}) → Result (Unit {0}) → Result (Unit {0})
best_effort (ok _) second = settled second
best_effort (err _) second = settled second
best_effort (panic p) second = panic p

module _ (R : Retrier) {W : Type 0} (ops : PxClusterOps W) (K : KvdbLibrary W)
    (read_all : String → Result (List (List String))) (debug : Bool) (cores : String) where
  -- What the wiping of kvdb returns; an internal one is not wiped.
  abbrev pub kvdb_result : Parsed → W → Result (Unit {0})
  kvdb_result p w =
      if is_internal p.error then ok tt else (wipe_px_kvdb K p.endpoints p.opts p.cluster_name w).0

  abbrev pub nodes_of : Parsed → DeleteOptions → Action W (Unit {0})
  nodes_of p opts =
      run_px_node_wiper R ops debug cores (host_path_root p.platform) opts.wiper_image
        opts.wiper_tag p.affinity

  -- The result of the wiping that is asked for.
  abbrev pub wiped : Parsed → Option DeleteOptions → W → Result (Unit {0})
  wiped p none w = ok tt
  wiped p (some opts) w =
      if opts.wipe_cluster
      then best_effort (nodes_of p opts w).0 (kvdb_result p (nodes_of p opts w).1)
      else ok tt
