-- ===== src/Tests/Construction.antt =====
-- A clientset from a configuration with a rate and no limiter.
use talisman.Common.{ℕ, suc, String, ◌≡◌, refl, Bool, true, Option, none, some}
use talisman.Go.Results.{ok, pure}
use talisman.Clientset.Construction.{
  Transport, Config, Constructors, new_for_config, new_for_config_or_die,
}
use talisman.Clientset.Construction.Shared.{WhenOk, WithLimiter, Shares, new_for_config-WithLimiter}

-- The state counts the limiters that were made; a client keeps the configuration that it was made with.
abbrev transport : Transport
transport = record {
  World = ℕ;
  RateLimiter = ℕ;
  Qps = Bool;
  is_positive = λ q. q;
  Burst = ℕ;
  Serializer = Unit {0};
  codecs = tt;
  default_kubernetes_user_agent = "talisman";
  Others = Unit {0};
  RestInterface = Option ℕ × String;
  DiscoveryClient = Option ℕ;
  new_token_bucket_rate_limiter = λ qps burst w. (w, suc w);
  new_discovery_client = λ r. r.0;
}

abbrev constructors : Constructors transport
constructors = record {
  rest_client_for = λ c. pure (c.rate_limiter, c.user_agent);
  new_discovery_client_for_config = λ c. pure (c.rate_limiter);
  new_discovery_client_for_config_or_die = λ c. pure (c.rate_limiter);
}

abbrev config : Config transport
config = record {
  rate_limiter = none;
  qps = true;
  burst = 10;
  group_version = none;
  api_path = "";
  negotiated_serializer = none;
  user_agent = "";
  others = tt;
}

new_for_config-WithLimiter_example :
    WhenOk (Shares transport constructors config 7) (new_for_config transport constructors config 7)
    × WhenOk
        (WithLimiter transport constructors constructors.new_discovery_client_for_config_or_die
          config none)
        (new_for_config_or_die transport constructors config 7)
new_for_config-WithLimiter_example = new_for_config-WithLimiter transport constructors config 7

shared_limiter : new_for_config transport constructors config 7 ≡ (
  ok (record {
    discovery_client = some 7;
    portworx_v1beta1 = (some 7, "talisman");
    portworx_v1beta2 = (some 7, "talisman");
  }),
  8,
)
unfolding new_for_config
shared_limiter = refl
