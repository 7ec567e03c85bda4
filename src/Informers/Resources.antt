-- ===== src/Informers/Resources.antt =====
-- pkg/client/informers/externalversions/generic.go and portworx/: the informers of the three kinds of
-- objects, and `ForResource`.
pub mod Served
use talisman.Common.{ℕ, String, ◌==◌, Bool, ◌&&◌, Option, none, some, List, [], ◌∷◌, if◌then◌else◌}
use talisman.Go.Results.{errorf, Result, ok, Action, raise}
use talisman.Kube.Machinery.{Machinery}
use talisman.Informers.{TweakListOptionsFunc, SharedInformerFactory, NewInformerFunc, informer_for}

-- `schema.GroupVersionResource` and `schema.GroupResource`
pub record GroupVersionResource : Type 0 where
  pub group : String
  pub version : String
  pub resource : String

pub record GroupResource : Type 0 where
  pub group : String
  pub resource : String

abbrev pub group_resource : GroupVersionResource → GroupResource
group_resource r = record { group = r.group; resource = r.resource }

abbrev pub group_name : String
group_name = "portworx.io"

-- `SchemeGroupVersion.WithResource` of the two versions
abbrev pub v1beta1_resource : String → GroupVersionResource
v1beta1_resource r = record { group = group_name; version = "v1beta1"; resource = r }

abbrev pub v1beta2_resource : String → GroupVersionResource
v1beta2_resource r = record { group = group_name; version = "v1beta2"; resource = r }

abbrev pub same_resource : GroupVersionResource → GroupVersionResource → Bool
same_resource a b = a.group == b.group && a.version == b.version && a.resource == b.resource

-- The types of the objects.
abbrev pub cluster_type : String
cluster_type = "*v1beta1.Cluster"

abbrev pub strategy_v1beta1_type : String
strategy_v1beta1_type = "*v1beta1.VolumePlacementStrategy"

abbrev pub strategy_v1beta2_type : String
strategy_v1beta2_type = "*v1beta2.VolumePlacementStrategy"

module _ (M : Machinery) where
  open M use {
    World, ListOptions, RuntimeObject, Watcher, SharedIndexInformer, Indexers, namespace_indexers,
    new_shared_index_informer,
  }

  -- What the informers call of a typed client.
  pub record ListerWatcher : Type 0 where
    pub list : ListOptions → Action World RuntimeObject
    pub watch : ListOptions → Action World Watcher

  -- `versioned.Interface`
  pub record VersionedInterface : Type 0 where
    pub clusters : String → ListerWatcher
    pub strategies_v1beta1 : ListerWatcher
    pub strategies_v1beta2 : ListerWatcher

  abbrev pub Tweak : Type 0
  Tweak = TweakListOptionsFunc M VersionedInterface

  abbrev pub Factory : Type 0
  Factory = SharedInformerFactory M VersionedInterface

  abbrev pub tweaked : Option Tweak → ListOptions → ListOptions
  tweaked none options = options
  tweaked (some tweak) options = tweak options

  abbrev pub list_watch :
      ListerWatcher → Option Tweak → String → ℕ → Indexers → World → SharedIndexInformer × World
  list_watch c tweak t resync_period indexers =
      new_shared_index_informer (λ options. c.list (tweaked tweak options))
        (λ options. c.watch (tweaked tweak options)) t resync_period indexers

  -- `NewFilteredClusterInformer` and `NewClusterInformer`
  abbrev pub new_filtered_cluster_informer :
      VersionedInterface
      → String
      → ℕ
      → Indexers
      → Option Tweak
      → World
      → SharedIndexInformer × World
  new_filtered_cluster_informer client namespace resync_period indexers tweak =
      list_watch (client.clusters namespace) tweak cluster_type resync_period indexers

  abbrev pub new_cluster_informer :
      VersionedInterface → String → ℕ → Indexers → World → SharedIndexInformer × World
  new_cluster_informer client namespace resync_period indexers =
      new_filtered_cluster_informer client namespace resync_period indexers none

  -- `NewFilteredVolumePlacementStrategyInformer` of the two versions
  abbrev pub new_filtered_strategy_v1beta1_informer :
      VersionedInterface → ℕ → Indexers → Option Tweak → World → SharedIndexInformer × World
  new_filtered_strategy_v1beta1_informer client resync_period indexers tweak =
      list_watch client.strategies_v1beta1 tweak strategy_v1beta1_type resync_period indexers

  abbrev pub new_filtered_strategy_v1beta2_informer :
      VersionedInterface → ℕ → Indexers → Option Tweak → World → SharedIndexInformer × World
  new_filtered_strategy_v1beta2_informer client resync_period indexers tweak =
      list_watch client.strategies_v1beta2 tweak strategy_v1beta2_type resync_period indexers

  -- `Informer()` of the three; the factory is what `f.factory` points to, and the namespace and the
  -- tweak are those with which `Portworx()` was called on it.
  unfoldable pub cluster_informer :
      String → Option Tweak → Factory × World → SharedIndexInformer × (Factory × World)
  cluster_informer namespace tweak =
      informer_for M VersionedInterface cluster_type λ client resync_period.
        new_filtered_cluster_informer client namespace resync_period namespace_indexers tweak

  unfoldable pub strategy_v1beta1_informer :
      Option Tweak → Factory × World → SharedIndexInformer × (Factory × World)
  strategy_v1beta1_informer tweak =
      informer_for M VersionedInterface strategy_v1beta1_type λ client resync_period.
        new_filtered_strategy_v1beta1_informer client resync_period namespace_indexers tweak

  unfoldable pub strategy_v1beta2_informer :
      Option Tweak → Factory × World → SharedIndexInformer × (Factory × World)
  strategy_v1beta2_informer tweak =
      informer_for M VersionedInterface strategy_v1beta2_type λ client resync_period.
        new_filtered_strategy_v1beta2_informer client resync_period namespace_indexers tweak

  -- `genericInformer`
  pub record GenericInformer : Type 0 where
    pub informer : SharedIndexInformer
    pub resource : GroupResource

  abbrev pub generic :
      GroupVersionResource
      → SharedIndexInformer × (Factory × World)
      → Result GenericInformer × (Factory × World)
  generic r (i, s) = (ok (record { informer = i; resource = group_resource r }), s)

  -- `ForResource`
  unfoldable pub for_resource : GroupVersionResource → Action (Factory × World) GenericInformer
  unfolding cluster_informer strategy_v1beta1_informer strategy_v1beta2_informer
  for_resource r (f, w) =
      if same_resource r (v1beta1_resource "clusters")
      then generic r (cluster_informer f.namespace f.tweak_list_options (f, w))
      else if same_resource r (v1beta1_resource "volumeplacementstrategies")
      then generic r (strategy_v1beta1_informer f.tweak_list_options (f, w))
      else if same_resource r (v1beta2_resource "volumeplacementstrategies")
      then generic r (strategy_v1beta2_informer f.tweak_list_options (f, w))
      else raise (errorf "no informer found for %v" (r.group ∷ r.version ∷ r.resource ∷ [])) (f, w)
