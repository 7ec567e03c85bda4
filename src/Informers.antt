-- ===== src/Informers.antt =====
-- pkg/client/informers/externalversions/factory.go: the factory that shares informers. A method
-- holds the lock of the factory, so the calls of several threads are a sequence of such steps.
pub mod Resources
pub mod Runs
pub mod Sharing
use talisman.Common.{
  ℕ, String, Bool, true, false, Option, none, some, List, [], ◌∷◌, lookup, insert, if◌then◌else◌,
}
use talisman.Kube.Machinery.{Machinery}

-- A map from types of objects; a type is its name.
abbrev pub ByType : Type 0 → Type 0
ByType A = List (String × A)

-- `m[k]` of a map of Booleans: false where the key is missing.
abbrev pub or_false : Option Bool → Bool
or_false none = false
or_false (some b) = b

abbrev pub is_started : String → ByType Bool → Bool
is_started t m = or_false (lookup t m)

-- The loop of `Start` over the informers: those that are run, with their types.
unfoldable pub start_each : {I : Type 0} → ByType I → ByType Bool → ByType I × ByType Bool
start_each [] started = ([], started)
start_each ((t, i) ∷ rest) started =
    let was_started = is_started t started in
    let (ran, started') =
      start_each rest (if was_started then started else insert t true started) in
    (if was_started then ran else (t, i) ∷ ran, started')

-- The loops of `WaitForCacheSync`.
unfoldable pub collect_started : {I : Type 0} → ByType I → ByType Bool → ByType I → ByType I
collect_started [] started informers = informers
collect_started ((t, i) ∷ rest) started informers =
    collect_started rest started (if is_started t started then insert t i informers else informers)

unfoldable pub sync_each : {I : Type 0} → (I → Bool) → ByType I → ByType Bool → ByType Bool
sync_each wait [] res = res
sync_each wait ((t, i) ∷ rest) res = sync_each wait rest (insert t (wait i) res)

-- The loop of `WithCustomResyncConfig`, over the types of its objects.
unfoldable pub set_resyncs : ByType ℕ → ByType ℕ → ByType ℕ
set_resyncs [] resyncs = resyncs
set_resyncs ((t, v) ∷ rest) resyncs = set_resyncs rest (insert t v resyncs)

abbrev pub or_default : Option ℕ → ℕ → ℕ
or_default none d = d
or_default (some v) d = v

module _ (M : Machinery) (Client : Type 0) where
  open M use {World, ListOptions, SharedIndexInformer}

  abbrev pub TweakListOptionsFunc : Type 0
  TweakListOptionsFunc = ListOptions → ListOptions

  abbrev pub NewInformerFunc : Type 0
  NewInformerFunc = Client → ℕ → World → SharedIndexInformer × World

  pub record SharedInformerFactory : Type 0 where
    pub client : Client
    pub namespace : String
    pub tweak_list_options : Option TweakListOptionsFunc
    pub default_resync : ℕ
    pub custom_resync : ByType ℕ
    pub informers : ByType SharedIndexInformer
    pub started_informers : ByType Bool

  abbrev pub SharedInformerOption : Type 0
  SharedInformerOption = SharedInformerFactory → SharedInformerFactory

  unfoldable pub with_custom_resync_config : ByType ℕ → SharedInformerOption
  unfolding set_resyncs
  with_custom_resync_config config f = record f {
    custom_resync = set_resyncs config f.custom_resync;
  }

  abbrev pub with_tweak_list_options : TweakListOptionsFunc → SharedInformerOption
  with_tweak_list_options tweak f = record f { tweak_list_options = some tweak }

  abbrev pub with_namespace : String → SharedInformerOption
  with_namespace namespace f = record f { namespace = namespace }

  abbrev pub apply_all : List SharedInformerOption → SharedInformerFactory → SharedInformerFactory
  apply_all [] f = f
  apply_all (opt ∷ opts) f = apply_all opts (opt f)

  -- `NewSharedInformerFactoryWithOptions`; `v1.NamespaceAll` is the empty text.
  unfoldable pub new_shared_informer_factory_with_options :
      Client → ℕ → List SharedInformerOption → SharedInformerFactory
  new_shared_informer_factory_with_options client default_resync options =
      apply_all options (record {
        client = client;
        namespace = "";
        tweak_list_options = none;
        default_resync = default_resync;
        custom_resync = [];
        informers = [];
        started_informers = [];
      })

  unfoldable pub new_shared_informer_factory : Client → ℕ → SharedInformerFactory
  unfolding new_shared_informer_factory_with_options
  new_shared_informer_factory client default_resync =
      new_shared_informer_factory_with_options client default_resync []

  unfoldable pub new_filtered_shared_informer_factory :
      Client → ℕ → String → TweakListOptionsFunc → SharedInformerFactory
  unfolding new_shared_informer_factory_with_options
  new_filtered_shared_informer_factory client default_resync namespace tweak =
      new_shared_informer_factory_with_options client default_resync
        (with_namespace namespace ∷ with_tweak_list_options tweak ∷ [])

  -- `Start`; the informers that it runs are returned.
  unfoldable pub start : SharedInformerFactory → ByType SharedIndexInformer × SharedInformerFactory
  unfolding start_each
  start f =
      let (ran, started) = start_each f.informers f.started_informers in
      (ran, record f { started_informers = started })

  -- `WaitForCacheSync`, over the call of `cache.WaitForCacheSync` for an informer.
  unfoldable pub wait_for_cache_sync :
      (SharedIndexInformer → Bool) → SharedInformerFactory → ByType Bool
  unfolding collect_started sync_each
  wait_for_cache_sync wait f =
      sync_each wait (collect_started f.informers f.started_informers []) []

  abbrev pub make_informer :
      String
      → NewInformerFunc
      → SharedInformerFactory × World
      → SharedIndexInformer × (SharedInformerFactory × World)
  make_informer t new_func (f, w) =
      let (i, w') = new_func f.client (or_default (lookup t f.custom_resync) f.default_resync) w in
      (i, (record f { informers = insert t i f.informers }, w'))

  abbrev pub existing_or_new :
      String
      → NewInformerFunc
      → Option SharedIndexInformer
      → SharedInformerFactory × World
      → SharedIndexInformer × (SharedInformerFactory × World)
  existing_or_new t new_func none s = make_informer t new_func s
  existing_or_new t new_func (some i) s = (i, s)

  -- `InformerFor`, for the type of the object.
  unfoldable pub informer_for :
      String
      → NewInformerFunc
      → SharedInformerFactory × World
      → SharedIndexInformer × (SharedInformerFactory × World)
  informer_for t new_func (f, w) = existing_or_new t new_func (lookup t f.informers) (f, w)
