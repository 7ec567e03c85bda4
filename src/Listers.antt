-- ===== src/Listers.antt =====
-- pkg/client/listers/portworx: the listers of the three kinds of objects, which read the indexer of an
-- informer.
pub mod Indexed
use talisman.Common.{String, ◌<>◌, Bool, true, false, Option, none, some, List, [], ◌∷◌}
use talisman.Go.Results.{Error, type_assertion, Result, ok, err, panic}
use talisman.Kube.Machinery.{Machinery}
use talisman.Informers.Resources.{
  GroupResource, group_name, Tweak, Factory, cluster_informer, strategy_v1beta1_informer,
  strategy_v1beta2_informer,
}

-- An `interface{}`: an object of the type that the lister asserts, or another value.
pub data Item (Object : Type 0) : Type 0 where
  of_type : Object → Item Object
  of_other_type : Item Object

-- What a `cache.Indexer` answers at the moment of a call: `ListAll` and `ListAllByNamespace` by the items for
-- which they call the function that they are given, in order, and `GetByKey`, whose item may be nil.
pub record Indexer (Selector Object : Type 0) : Type 0 where
  pub list_all : Selector → List (Item Object) × Option Error
  pub list_all_by_namespace : String → Selector → List (Item Object) × Option Error
  pub get_by_key : String → (Option (Item Object) × Bool) × Option Error

-- `v1beta1.Resource` and `v1beta2.Resource`
abbrev pub resource : String → GroupResource
resource r = record { group = group_name; resource = r }

module _ {Object : Type 0} where
  -- `ret = append(ret, m.(*T))`
  abbrev pub append_item : Item Object → Result (List Object) → Result (List Object)
  append_item (of_type o) (ok os) = ok (o ∷ os)
  append_item (of_type o) (err e) = err e
  append_item (of_type o) (panic p) = panic p
  append_item of_other_type rest = panic type_assertion

  unfoldable pub append_all : List (Item Object) → Result (List Object)
  append_all [] = ok []
  append_all (i ∷ is) = append_item i (append_all is)

  -- The objects are returned with the error.
  abbrev pub with_error : Option Error → Result (List Object) → Result (List Object × Option Error)
  with_error error (ok os) = ok (os, error)
  with_error error (err e) = err e
  with_error error (panic p) = panic p

  unfoldable pub listed : List (Item Object) × Option Error → Result (List Object × Option Error)
  unfolding append_all
  listed (items, error) = with_error error (append_all items)

  abbrev pub asserted : Option (Item Object) → Result Object
  asserted (some (of_type o)) = ok o
  asserted (some of_other_type) = panic type_assertion
  asserted none = panic type_assertion

  abbrev pub got : Error → (Option (Item Object) × Bool) × Option Error → Result Object
  got missing (_, some e) = err e
  got missing ((obj, false), none) = err missing
  got missing ((obj, true), none) = asserted obj

-- `errors.NewNotFound` is a parameter.
module _ {Selector Object : Type 0} (new_not_found : GroupResource → String → Error)
    (indexer : Indexer Selector Object) where
  -- `clusterLister.List`
  abbrev pub list_clusters : Selector → Result (List Object × Option Error)
  unfolding listed
  list_clusters selector = listed (indexer.list_all selector)

  -- `clusterNamespaceLister`
  unfoldable pub list_clusters_in : String → Selector → Result (List Object × Option Error)
  unfolding listed
  list_clusters_in namespace selector = listed (indexer.list_all_by_namespace namespace selector)

  unfoldable pub get_cluster_in : String → String → Result Object
  get_cluster_in namespace name =
      got (new_not_found (resource "cluster") name)
        (indexer.get_by_key (namespace <> ("/" <> name)))

  -- `volumePlacementStrategyLister` of the two versions
  unfoldable pub list_strategies : Selector → Result (List Object × Option Error)
  unfolding listed
  list_strategies selector = listed (indexer.list_all selector)

  unfoldable pub get_strategy : String → Result Object
  get_strategy name =
      got (new_not_found (resource "volumeplacementstrategy") name) (indexer.get_by_key name)

-- `Lister()` of the three informers: a lister is the indexer of the informer, which the factory makes or
-- has already.
module _ (M : Machinery) {Indexer : Type 0} (get_indexer : M.SharedIndexInformer → Indexer) where
  abbrev pub indexer_of :
      M.SharedIndexInformer × (Factory M × M.World) → Indexer × (Factory M × M.World)
  indexer_of (i, s) = (get_indexer i, s)

  unfoldable pub cluster_lister :
      String → Option (Tweak M) → Factory M × M.World → Indexer × (Factory M × M.World)
  unfolding cluster_informer
  cluster_lister namespace tweak s = indexer_of (cluster_informer M namespace tweak s)

  unfoldable pub strategy_v1beta1_lister :
      Option (Tweak M) → Factory M × M.World → Indexer × (Factory M × M.World)
  unfolding strategy_v1beta1_informer
  strategy_v1beta1_lister tweak s = indexer_of (strategy_v1beta1_informer M tweak s)

  unfoldable pub strategy_v1beta2_lister :
      Option (Tweak M) → Factory M × M.World → Indexer × (Factory M × M.World)
  unfolding strategy_v1beta2_informer
  strategy_v1beta2_lister tweak s = indexer_of (strategy_v1beta2_informer M tweak s)
