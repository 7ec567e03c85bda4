-- ===== src/Clientset.antt =====
-- pkg/client/clientset/versioned/typed/portworx: the typed clients of the three kinds of objects.
pub mod Requests
pub mod Server
pub mod History
pub mod Construction
use talisman.Common.{String, Option, none, some, List, [], ◌∷◌, ◌++◌}
use talisman.Go.Results.{Error, Action}
use talisman.Clientset.Requests.{
  Rest, Kind, Part, Request, RestClient, get_verb, post, put, delete_verb, patch_verb, get_options,
  list_options, object, delete_options, bytes, namespace_part, resource_part, name_part,
  sub_resource, versioned_params, body,
}

module _ (R : Rest) (K : Kind) where
  -- `ClusterInterface` and `VolumePlacementStrategyInterface`; a call that decodes returns its result with
  -- its error.
  pub record TypedInterface : Type 0 where
    pub create : K.Object → R.World → (K.Object × Option Error) × R.World
    pub update : K.Object → R.World → (K.Object × Option Error) × R.World
    pub delete : String → Option R.DeleteOptions → R.World → Option Error × R.World
    pub delete_collection :
        Option R.DeleteOptions → R.ListOptions → R.World → Option Error × R.World
    pub get : String → R.GetOptions → R.World → (K.Object × Option Error) × R.World
    pub list : R.ListOptions → R.World → (K.Objects × Option Error) × R.World
    pub watch : R.ListOptions → Action R.World R.Watcher
    pub patch :
        String → R.PatchType → String → List String → R.World → (K.Object × Option Error) × R.World

  -- The calls of the builder before `Name`: only clusters have a namespace.
  abbrev pub scoped : Option String → String → List (Part R K) → List (Part R K)
  scoped none resource ps = resource_part resource ∷ ps
  scoped (some ns) resource ps = namespace_part ns ∷ resource_part resource ∷ ps

  module _ (client : RestClient R K) (ns : Option String) (resource : String) where
    abbrev typed_get : String → R.GetOptions → R.World → (K.Object × Option Error) × R.World
    typed_get name options = client.into (K.zero_object) (record {
      verb = get_verb;
      parts = scoped ns resource (name_part name ∷ versioned_params (get_options options) ∷ []);
    })

    abbrev typed_list : R.ListOptions → R.World → (K.Objects × Option Error) × R.World
    typed_list opts = client.into_list (K.zero_objects) (record {
      verb = get_verb;
      parts = scoped ns resource (versioned_params (list_options opts) ∷ []);
    })

    abbrev typed_watch : R.ListOptions → Action R.World R.Watcher
    typed_watch opts = client.watch (record {
      verb = get_verb;
      parts = scoped ns resource (versioned_params (list_options (R.watching opts)) ∷ []);
    })

    abbrev typed_create : K.Object → R.World → (K.Object × Option Error) × R.World
    typed_create o =
        client.into (K.zero_object)
          (record { verb = post; parts = scoped ns resource (body (object o) ∷ []) })

    abbrev typed_update : K.Object → R.World → (K.Object × Option Error) × R.World
    typed_update o = client.into (K.zero_object) (record {
      verb = put;
      parts = scoped ns resource (name_part (K.name_of o) ∷ body (object o) ∷ []);
    })

    abbrev typed_delete : String → Option R.DeleteOptions → R.World → Option Error × R.World
    typed_delete name options = client.error_of (record {
      verb = delete_verb;
      parts = scoped ns resource (name_part name ∷ body (delete_options options) ∷ []);
    })

    abbrev typed_delete_collection :
        Option R.DeleteOptions → R.ListOptions → R.World → Option Error × R.World
    typed_delete_collection options opts = client.error_of (record {
      verb = delete_verb;
      parts =
          scoped ns resource
            (versioned_params (list_options opts) ∷ body (delete_options options) ∷ []);
    })

    abbrev typed_patch :
        String → R.PatchType → String → List String → R.World → (K.Object × Option Error) × R.World
    typed_patch name pt data_bytes subresources = client.into (K.zero_object) (record {
      verb = patch_verb pt;
      parts =
          scoped ns resource
            (sub_resource subresources ∷ name_part name ∷ body (bytes data_bytes) ∷ []);
    })

    abbrev typed_client : TypedInterface
    typed_client = record {
      create = typed_create;
      update = typed_update;
      delete = typed_delete;
      delete_collection = typed_delete_collection;
      get = typed_get;
      list = typed_list;
      watch = typed_watch;
      patch = typed_patch;
    }

  -- `newClusters`
  unfoldable pub clusters_client : RestClient R K → String → TypedInterface
  clusters_client client ns = typed_client client (some ns) "clusters"

  -- `newVolumePlacementStrategies` of the two versions, each over the client of its version
  unfoldable pub strategies_v1beta1_client : RestClient R K → TypedInterface
  strategies_v1beta1_client client = typed_client client none "volumeplacementstrategies"

  unfoldable pub strategies_v1beta2_client : RestClient R K → TypedInterface
  strategies_v1beta2_client client = typed_client client none "volumeplacementstrategies"
