-- ===== src/Tests/Crd.antt =====
-- A cluster in which definitions are established at once.
use talisman.Common.{Bool, true, [], ◌∷◌}
use talisman.Go.Results.{pure, err, api, is_present}
use talisman.Go.Retry.{bounded_poll, bounded_poll-Runs}
use talisman.Crd.{
  CustomResource, CrdContext, established, names_accepted, condition_true, create_crd,
}
use talisman.Crd.Established.{Ready, create_crd-Ready}

abbrev context : CrdContext Bool
context = record {
  client = record {
    create_definition = λ _ w. (err (api is_present "already exists"), w);
    get_conditions = λ _. pure (
        record { condition_type = names_accepted; status = condition_true; reason = "" }
        ∷ record { condition_type = established; status = condition_true; reason = "" }
        ∷ []);
  };
  interval = 1;
  timeout = 60;
}

abbrev cluster : CustomResource
cluster = record {
  name = "cluster";
  plural = "clusters";
  group = "portworx.io";
  version = "v1beta1";
  scope = "Namespaced";
  kind = "Cluster";
}

create_crd-Ready_example :
    Ready context
      (bounded_poll 3)
      (bounded_poll-Runs 3)
      (cluster ∷ [])
      (create_crd (bounded_poll 3) context (cluster ∷ []) true)
create_crd-Ready_example =
    create_crd-Ready context (bounded_poll 3) (bounded_poll-Runs 3) (cluster ∷ []) true
