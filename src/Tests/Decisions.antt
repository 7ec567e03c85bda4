-- ===== src/Tests/Decisions.antt =====
-- The decisions of an upgrade at concrete versions, nodes and numbers.
use talisman.Common.{
  ◌+◌, ◌*◌, ◌^◌, String, ◌≡◌, refl, Bool, true, false, none, List, [], ◌∷◌, arith,
}
use talisman.Go.Results.{ok, pure}
use talisman.Go.Text.{span_digits}
use talisman.Kube.Objects.{EnvVar}
use talisman.Api.{ClusterSpec}
use talisman.Openstorage.{Node, ClusterManager}
use talisman.K8sutils.Instance.{second}
use talisman.Px.Version.{parse_px_version}
use talisman.Px.Version.Laws.{is_number, ends_number, parse_px_version-numbers}
use talisman.Px.Drain.{is_any_node_running_version_with_prefix}
use talisman.Px.Drain.Decision.{is_any_node_running_version_with_prefix-first}
use talisman.Px.Timeouts.{ready_timeout, ready_timeout-exact, ready_timeout-no_nodes}
use talisman.Px.Env.{get_env, set_env, get_env-set_env}

abbrev node : String → Node
node version = record { id = "n"; node_labels = ("PX Version", version) ∷ [] }

abbrev manager : List Node → ClusterManager Bool
manager nodes = record { enumerate = pure nodes }

abbrev spec : ClusterSpec
spec = record { px_image = ""; px_tag = "1.3.1-rc2"; oci_mon_image = ""; oci_mon_tag = "" }

numbers :
    (is_number "12" ≡ true)
    × (is_number "0" ≡ true)
    × (is_number "3" ≡ true)
    × (ends_number "-rc1" ≡ true)
unfolding is_number ends_number
numbers = (refl, refl, refl, refl)

parsed : parse_px_version "1.3.1-rc2" ≡ ok "1.3.1"
unfolding parse_px_version span_digits
parsed = refl

parse_px_version-numbers_example : parse_px_version "12.0.3-rc1" ≡ ok "12.0.3"
parse_px_version-numbers_example =
    parse_px_version-numbers "12" "0" "3" "-rc1" numbers.0 numbers.1 numbers.2 numbers.3

-- The second node runs 1.2 and is not looked at.
is_any_node_running_version_with_prefix-first_example :
    is_any_node_running_version_with_prefix "1.2" (manager (node "1.4.0" ∷ node "1.2.9" ∷ [])) true
    ≡ (ok false, true)
is_any_node_running_version_with_prefix-first_example =
    is_any_node_running_version_with_prefix-first "1.2" (manager (node "1.4.0" ∷ node "1.2.9" ∷ []))
      (node "1.4.0" ∷ node "1.2.9" ∷ []) true true refl

ready_timeout-exact_example : ready_timeout 3 600 ≡ 2 * 600 * second
ready_timeout-exact_example = ready_timeout-exact 2 600 (omega arith) (omega arith)

ready_timeout-no_nodes_example : ready_timeout 0 600 + 600 * second ≡ 2 ^ 64
ready_timeout-no_nodes_example = ready_timeout-no_nodes 600 (omega arith) (omega arith)

abbrev vars : List EnvVar
vars = record { name = "A"; value = "1"; value_from = none } ∷ []

get_env-set_env_example : get_env (set_env vars "B" "2") "B" ≡ "2"
get_env-set_env_example = get_env-set_env vars "B" "2" "B"
