-- ===== src/Clientset/Requests.antt =====
-- What the typed clients use of client-go's rest: a request is the calls of its builder, in their order.
use talisman.Common.{String, Option, none, some, List, [], ◌∷◌}
use talisman.Go.Results.{Error, Action}

-- The types of apimachinery, and a state `World` of the cluster.
pub record Rest : Type 1 where
  pub World : Type 0
  pub GetOptions : Type 0
  pub ListOptions : Type 0
  pub DeleteOptions : Type 0
  pub PatchType : Type 0
  pub Watcher : Type 0
  -- `opts.Watch = true`
  pub watching : ListOptions → ListOptions

-- An API type, its list, their zero values, and the name in the metadata of an object.
pub record Kind : Type 1 where
  pub Object : Type 0
  pub Objects : Type 0
  pub zero_object : Object
  pub zero_objects : Objects
  pub name_of : Object → String

module _ (R : Rest) (K : Kind) where
  pub data Verb : Type 0 where
    get_verb post put delete_verb : Verb
    patch_verb : R.PatchType → Verb

  pub data Params : Type 0 where
    get_options : R.GetOptions → Params
    list_options : R.ListOptions → Params

  pub data Body : Type 0 where
    object : K.Object → Body
    delete_options : Option R.DeleteOptions → Body
    bytes : String → Body

  pub data Part : Type 0 where
    namespace_part : String → Part
    resource_part : String → Part
    name_part : String → Part
    sub_resource : List String → Part
    versioned_params : Params → Part
    body : Body → Part

  pub record Request : Type 0 where
    pub verb : Verb
    pub parts : List Part

  -- `Do` with `Into`, `Do` with `Error`, and `Watch`. `Into` is given what it decodes into, and leaves
  -- something there also where it returns an error.
  pub record RestClient : Type 0 where
    pub into : K.Object → Request → R.World → (K.Object × Option Error) × R.World
    pub into_list : K.Objects → Request → R.World → (K.Objects × Option Error) × R.World
    pub error_of : Request → R.World → Option Error × R.World
    pub watch : Request → Action R.World R.Watcher

module _ {R : Rest} {K : Kind} where
  -- What a request asks for.
  abbrev pub namespace_in : List (Part R K) → Option String
  namespace_in [] = none
  namespace_in (namespace_part n ∷ _) = some n
  namespace_in (resource_part _ ∷ ps) = namespace_in ps
  namespace_in (name_part _ ∷ ps) = namespace_in ps
  namespace_in (sub_resource _ ∷ ps) = namespace_in ps
  namespace_in (versioned_params _ ∷ ps) = namespace_in ps
  namespace_in (body _ ∷ ps) = namespace_in ps

  abbrev pub resource_in : List (Part R K) → Option String
  resource_in [] = none
  resource_in (resource_part r ∷ _) = some r
  resource_in (namespace_part _ ∷ ps) = resource_in ps
  resource_in (name_part _ ∷ ps) = resource_in ps
  resource_in (sub_resource _ ∷ ps) = resource_in ps
  resource_in (versioned_params _ ∷ ps) = resource_in ps
  resource_in (body _ ∷ ps) = resource_in ps

  abbrev pub name_in : List (Part R K) → Option String
  name_in [] = none
  name_in (name_part n ∷ _) = some n
  name_in (namespace_part _ ∷ ps) = name_in ps
  name_in (resource_part _ ∷ ps) = name_in ps
  name_in (sub_resource _ ∷ ps) = name_in ps
  name_in (versioned_params _ ∷ ps) = name_in ps
  name_in (body _ ∷ ps) = name_in ps

  abbrev pub object_in : List (Part R K) → Option K.Object
  object_in [] = none
  object_in (body (object o) ∷ _) = some o
  object_in (body (delete_options _) ∷ ps) = object_in ps
  object_in (body (bytes _) ∷ ps) = object_in ps
  object_in (namespace_part _ ∷ ps) = object_in ps
  object_in (resource_part _ ∷ ps) = object_in ps
  object_in (name_part _ ∷ ps) = object_in ps
  object_in (sub_resource _ ∷ ps) = object_in ps
  object_in (versioned_params _ ∷ ps) = object_in ps
