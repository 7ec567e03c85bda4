-- ===== src/Tests/Informers.antt =====
-- A factory whose informers are numbered in the order in which they are made.
use talisman.Common.{ℕ, suc, ◌≡◌, refl, true, List, [], ◌∷◌, lookup}
use talisman.Go.Results.{pure}
use talisman.Kube.Machinery.{Machinery}
use talisman.Informers.{
  SharedInformerFactory, NewInformerFunc, informer_for, start, wait_for_cache_sync,
  new_shared_informer_factory_with_options, with_custom_resync_config, with_namespace,
  with_tweak_list_options, set_resyncs,
}
use talisman.Informers.Runs.{
  FactoryCall, request, start_all, Process, RunOnce, runs_of, step, run_calls, to_list, registered,
  started, IsFresh, run_calls-RunOnce, start_all-AllRun,
}
use talisman.Informers.Sharing.{
  keep_if, map_option, informer_for-shared, wait_for_cache_sync-started,
}
use talisman.Informers.Resources.{
  VersionedInterface, ListerWatcher, v1beta2_resource, cluster_type, strategy_v1beta1_type,
  for_resource,
}
use talisman.Informers.Resources.Served.{Served, for_resource-Served}

-- The informer is the number of those that were made before, and the period of its resync.
abbrev machinery : Machinery
machinery = record {
  World = ℕ;
  ListOptions = ℕ;
  RuntimeObject = ℕ;
  Watcher = ℕ;
  SharedIndexInformer = ℕ × ℕ;
  Indexers = Unit {0};
  namespace_indexers = tt;
  new_shared_index_informer = λ list watch t resync indexers w. ((w, resync), suc w);
}

abbrev Client : Type 0
Client = VersionedInterface machinery

abbrev nothing : ListerWatcher machinery
nothing = record { list = λ o. pure o; watch = λ o. pure o }

abbrev client : Client
client = record {
  clusters = λ ns. nothing;
  strategies_v1beta1 = nothing;
  strategies_v1beta2 = nothing;
}

abbrev factory : SharedInformerFactory machinery Client
unfolding new_shared_informer_factory_with_options with_custom_resync_config set_resyncs
factory = new_shared_informer_factory_with_options machinery Client client 30 (
    with_namespace machinery Client "kube-system"
    ∷ with_custom_resync_config machinery Client ((cluster_type, 5) ∷ [])
    ∷ with_tweak_list_options machinery Client (λ o. suc o)
    ∷ [])

abbrev make : NewInformerFunc machinery Client
make c resync w = ((w, resync), suc w)

abbrev calls : List (FactoryCall machinery Client)
calls =
    request cluster_type make
    ∷ start_all
    ∷ request strategy_v1beta1_type make
    ∷ request cluster_type make
    ∷ start_all
    ∷ start_all
    ∷ []

abbrev start_of : Process machinery Client
start_of = record { factory = factory; world = 0; ran = [] }

-- Two informers are made and each is run once; the first has a resync of its own.
run_twice :
    (run_calls machinery Client calls start_of).ran
    ≡ ((cluster_type, (0, 5)) ∷ (strategy_v1beta1_type, (1, 30)) ∷ [])
unfolding run_calls informer_for start new_shared_informer_factory_with_options
    with_custom_resync_config set_resyncs
run_twice = refl

factory-IsFresh : IsFresh machinery Client factory
unfolding new_shared_informer_factory_with_options with_custom_resync_config set_resyncs
factory-IsFresh = (refl, refl)

run_calls-RunOnce_example :
    RunOnce machinery Client cluster_type (run_calls machinery Client calls start_of)
run_calls-RunOnce_example =
    run_calls-RunOnce machinery Client factory 0 calls cluster_type factory-IsFresh

start_all-AllRun_example :
    let p = step machinery Client start_all (run_calls machinery Client calls start_of) in
    (runs_of cluster_type p.ran ≡ to_list (registered machinery Client cluster_type p))
    × (runs_of cluster_type (start machinery Client p.factory).0 ≡ [])
start_all-AllRun_example =
    start_all-AllRun machinery Client factory 0 calls cluster_type factory-IsFresh

informer_for-shared_example :
    let (i, _) = informer_for machinery Client cluster_type make (factory, 0) in
    let q =
      run_calls machinery Client calls
        (step machinery Client (request cluster_type make) start_of) in
    informer_for machinery Client cluster_type make (q.factory, q.world) ≡ (i, (q.factory, q.world))
informer_for-shared_example =
    informer_for-shared machinery Client cluster_type make make start_of calls

wait_for_cache_sync-started_example :
    let p = run_calls machinery Client calls start_of in
    lookup cluster_type (wait_for_cache_sync machinery Client (λ i. true) p.factory)
    ≡ keep_if
        (started machinery Client cluster_type p)
        (map_option (λ i. true) (registered machinery Client cluster_type p))
wait_for_cache_sync-started_example =
    wait_for_cache_sync-started machinery Client (λ i. true) factory 0 calls cluster_type
      factory-IsFresh

for_resource-Served_example :
    let r = v1beta2_resource "volumeplacementstrategies" in
    Served machinery r (factory, 0) (for_resource machinery r (factory, 0))
for_resource-Served_example =
    for_resource-Served machinery (v1beta2_resource "volumeplacementstrategies") factory 0
