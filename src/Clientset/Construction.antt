-- ===== src/Clientset/Construction.antt =====
-- pkg/client/clientset/versioned/clientset.go, and portworx_client.go of the two versions: how the clients
-- are made from a configuration.
pub mod Shared
use talisman.Common.{String, ◌==◌, Bool, true, false, ◌&&◌, Option, none, some, if◌then◌else◌}
use talisman.Go.Results.{
  Error, of_error, Result, ok, err, panic, Action, pure, raise, crash, of_result, ◌>>=◌, ◌>>◌,
  catch,
}
use talisman.Informers.Resources.{group_name}

-- What is used of client-go: `rest`, `discovery` and `flowcontrol`.
pub record Transport : Type 1 where
  pub World : Type 0
  pub RateLimiter : Type 0
  -- a `float32`
  pub Qps : Type 0
  pub is_positive : Qps → Bool
  pub Burst : Type 0
  pub Serializer : Type 0
  -- `serializer.WithoutConversionCodecFactory{CodecFactory: scheme.Codecs}`
  pub codecs : Serializer
  pub default_kubernetes_user_agent : String
  -- the other fields of a `rest.Config`
  pub Others : Type 0
  -- `rest.Interface` and `discovery.DiscoveryClient`
  pub RestInterface : Type 0
  pub DiscoveryClient : Type 0
  pub new_token_bucket_rate_limiter : Qps → Burst → World → RateLimiter × World
  pub new_discovery_client : RestInterface → DiscoveryClient

-- `schema.GroupVersion`
pub record GroupVersion : Type 0 where
  pub group : String
  pub version : String

-- `SchemeGroupVersion` of the two versions
abbrev pub scheme_group_version_v1beta1 : GroupVersion
scheme_group_version_v1beta1 = record { group = group_name; version = "v1beta1" }

abbrev pub scheme_group_version_v1beta2 : GroupVersion
scheme_group_version_v1beta2 = record { group = group_name; version = "v1beta2" }

module _ (T : Transport) where
  -- `rest.Config`
  pub record Config : Type 0 where
    pub rate_limiter : Option T.RateLimiter
    pub qps : T.Qps
    pub burst : T.Burst
    pub group_version : Option GroupVersion
    pub api_path : String
    pub negotiated_serializer : Option T.Serializer
    pub user_agent : String
    pub others : T.Others

  pub record Clientset : Type 0 where
    pub discovery_client : T.DiscoveryClient
    pub portworx_v1beta1 : T.RestInterface
    pub portworx_v1beta2 : T.RestInterface

  -- It returns no error.
  abbrev pub set_config_defaults : GroupVersion → Config → Result Config
  set_config_defaults gv config = ok (record config {
    group_version = some gv;
    api_path = "/apis";
    negotiated_serializer = some T.codecs;
    user_agent =
        if config.user_agent == "" then T.default_kubernetes_user_agent else config.user_agent;
  })

  abbrev or_die : {A : Type 0} → Action T.World A → Action T.World A
  or_die m = catch m λ e. crash (of_error e)

  -- `rest.RESTClientFor` and `discovery.NewDiscoveryClientForConfig`
  pub record Constructors : Type 0 where
    pub rest_client_for : Config → Action T.World T.RestInterface
    pub new_discovery_client_for_config : Config → Action T.World T.DiscoveryClient
    pub new_discovery_client_for_config_or_die : Config → Action T.World T.DiscoveryClient

  module _ (C : Constructors) where
    -- `NewForConfig` and `NewForConfigOrDie` of a version
    abbrev pub client_for_config : GroupVersion → Config → Action T.World T.RestInterface
    client_for_config gv c = of_result (set_config_defaults gv c) >>= C.rest_client_for

    abbrev pub client_for_config_or_die : GroupVersion → Config → Action T.World T.RestInterface
    client_for_config_or_die gv c = or_die (client_for_config gv c)

    abbrev needs_limiter : Option T.RateLimiter → T.Qps → Bool
    needs_limiter (some _) qps = false
    needs_limiter none qps = T.is_positive qps

    -- The copy of the configuration, and its rate limiter.
    abbrev pub with_limiter : Config → Action T.World Config
    with_limiter c w =
        let (l, w') = T.new_token_bucket_rate_limiter c.qps c.burst w in
        if needs_limiter c.rate_limiter c.qps
        then (ok (record c { rate_limiter = some l }), w')
        else (ok c, w)

    abbrev pub clients_for_config : Config → Action T.World Clientset
    clients_for_config config = do
      v1 ← client_for_config scheme_group_version_v1beta1 config
      v2 ← client_for_config scheme_group_version_v1beta2 config
      d ← C.new_discovery_client_for_config config
      pure (record { discovery_client = d; portworx_v1beta1 = v1; portworx_v1beta2 = v2 })

    -- `NewForConfig`
    unfoldable pub new_for_config : Config → Action T.World Clientset
    new_for_config c = with_limiter c >>= clients_for_config

    -- `NewForConfigOrDie`
    unfoldable pub new_for_config_or_die : Config → Action T.World Clientset
    new_for_config_or_die c = do
      v1 ← client_for_config_or_die scheme_group_version_v1beta1 c
      v2 ← client_for_config_or_die scheme_group_version_v1beta2 c
      d ← C.new_discovery_client_for_config_or_die c
      pure (record { discovery_client = d; portworx_v1beta1 = v1; portworx_v1beta2 = v2 })

  -- `New`
  abbrev pub new : T.RestInterface → Clientset
  new c = record {
    discovery_client = T.new_discovery_client c;
    portworx_v1beta1 = c;
    portworx_v1beta2 = c;
  }
