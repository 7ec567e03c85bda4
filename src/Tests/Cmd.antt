-- ===== src/Tests/Cmd.antt =====
-- The program that restores the applications of the test cluster.
use talisman.Common.{refl, [], ◌∷◌}
use talisman.Go.Results.{pure, ok}
use talisman.Go.Retry.{bounded_retrier, bounded_retrier-IsRetry}
use talisman.K8sutils.Scaling.Cluster.{GivesBack}
use talisman.Cmd.{Flags, default_flags, Libraries, main}
use talisman.Cmd.Interrupted.{main-GivesBack}
use talisman.Px.Kvdb.{KvdbLibrary}
use talisman.Tests.Clients.{no_core, no_apps, no_rbac, no_storage, no_admissions, unavailable}
use talisman.Tests.Scaling.{
  World, view, client, inventory, kube-IsAppStore, client-IsListed, parse, parse-ReadsCounts, start,
  scaled_down, runs, start-AreFresh, distinct,
}

abbrev kvdb_library : KvdbLibrary World
kvdb_library = record {
  Client = Unit;
  version = λ _ _ _. unavailable;
  new_client = λ _ _ _ _. unavailable;
  delete_tree = λ _ _. unavailable;
  etcd_base_version = "v2";
  etcd_version3 = "v3";
  etcd2_name = "etcd-kv";
  etcd3_name = "etcdv3-kv";
}

abbrev libraries : Libraries World
libraries = record {
  retrier = bounded_retrier 3;
  new_utils = λ _. pure client;
  core = no_core World;
  apps = no_apps World;
  rbac = no_rbac World;
  storage = no_storage World;
  admissions = no_admissions World;
  kvdb = kvdb_library;
  new_driver_client = λ _ _ _ _. unavailable;
  new_cluster_client = λ _ _. unavailable;
  read_all = λ s. ok ((s ∷ []) ∷ []);
  parse = parse;
}

abbrev flags : Flags
flags = record default_flags { op = "restoresharedapps" }

main-GivesBack_example : GivesBack view start (main libraries flags scaled_down)
main-GivesBack_example =
    main-GivesBack view libraries flags client inventory (bounded_retrier-IsRetry 3) kube-IsAppStore
      client-IsListed parse-ReadsCounts start scaled_down scaled_down distinct start-AreFresh runs
      (λ key. refl) refl refl
