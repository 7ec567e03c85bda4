-- ===== src/Kube/Machinery.antt =====
-- What the informers use of client-go: its types, and the constructor of an informer, which registers
-- it in an unknown state of the process.
use talisman.Common.{ℕ, String}
use talisman.Go.Results.{Action}

pub record Machinery : Type 1 where
  pub World : Type 0
  -- `meta.ListOptions`, `runtime.Object`, `watch.Interface` and `cache.SharedIndexInformer`
  pub ListOptions : Type 0
  pub RuntimeObject : Type 0
  pub Watcher : Type 0
  pub SharedIndexInformer : Type 0
  pub Indexers : Type 0
  -- `cache.Indexers{cache.NamespaceIndex: cache.MetaNamespaceIndexFunc}`
  pub namespace_indexers : Indexers
  -- `cache.NewSharedIndexInformer`, with the functions of its `ListWatch`, the type of the objects
  -- and the period of its resync.
  pub new_shared_index_informer :
      (ListOptions → Action World RuntimeObject)
      → (ListOptions → Action World Watcher)
      → String
      → ℕ
      → Indexers
      → World
      → SharedIndexInformer × World
