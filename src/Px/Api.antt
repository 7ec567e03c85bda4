-- ===== src/Px/Api.antt =====
-- pkg/cluster/px/px.go: the ports of an upgrade, `checkAPIDaemonset` and `checkAPIService`.
pub mod Ports
use talisman.Common.{
  ℕ, String, Bool, true, false, eqb, Option, none, some, List, [], ◌∷◌, if◌then◌else◌,
}
use talisman.Go.Results.{is_not_found, Error, Result, Action, pure, raise, ◌>>=◌, ◌>>◌, catch}
use talisman.Kube.Objects.{
  Labels, Affinity, Probe, Container, PodSpec, DaemonSet, ServicePort, Service,
}
use talisman.Px.Names.{px_api_daemonset, px_api_service_name, px_service_account_name}
use talisman.Px.Ops.{PxClusterOps}

-- `map[int32]int32`: the target of a port, if there is one.
abbrev pub TargetPorts : Type 0
TargetPorts = ℕ → Option ℕ

abbrev pub set_port : ℕ → ℕ → TargetPorts → TargetPorts
set_port port target ports p = if eqb port p then some target else ports p

abbrev pub default_target_ports : TargetPorts
default_target_ports =
    set_port 9021 9021 (set_port 9020 9020 (set_port 9019 9019 (set_port 9001 9001 λ _. none)))

-- The loop over the ports of the service, which overrides the defaults.
unfoldable pub override_ports : List ServicePort → TargetPorts → TargetPorts
override_ports [] ports = ports
override_ports (p ∷ rest) ports = override_ports rest (set_port p.port p.target_port ports)

abbrev pub port_or_zero : Option ℕ → ℕ
port_or_zero none = 0
port_or_zero (some n) = n

abbrev pub tcp_port : TargetPorts → String → ℕ → ServicePort
tcp_port ports name port = record {
  name = name;
  protocol = "TCP";
  port = port;
  target_port = port_or_zero (ports port);
}

-- The ports of the patch for the service of Portworx.
unfoldable pub px_service_patch : TargetPorts → List ServicePort
px_service_patch ports =
    tcp_port ports "px-api" 9001
    ∷ tcp_port ports "px-kvdb" 9019
    ∷ tcp_port ports "px-sdk" 9020
    ∷ tcp_port ports "px-rest-gateway" 9021
    ∷ []

-- The ports of the API service, in its creation and in its patch.
unfoldable pub api_service_ports : TargetPorts → List ServicePort
api_service_ports ports =
    tcp_port ports "px-api" 9001
    ∷ tcp_port ports "px-sdk" 9020
    ∷ tcp_port ports "px-rest-gateway" 9021
    ∷ []

abbrev pub api_labels : Labels
api_labels = ("name", "portworx-api") ∷ []

abbrev pub api_daemonset : String → Affinity → DaemonSet
api_daemonset namespace affinity = record {
  name = px_api_daemonset;
  namespace = namespace;
  uid = "";
  labels = api_labels;
  annotations = none;
  selector = api_labels;
  template_labels = api_labels;
  pod = record {
    host_pid = false;
    host_network = true;
    affinity = affinity;
    containers =
        record {
          name = px_api_daemonset;
          image = "k8s.gcr.io/pause:3.1";
          image_pull_policy = "Always";
          args = [];
          env = [];
          privileged = false;
          readiness_probe = some (Probe.http_get_every 10 "127.0.0.1" 9001 "/status");
          volume_mounts = [];
        }
        ∷ [];
    restart_policy = "Always";
    service_account_name = px_service_account_name;
    volumes = [];
  };
  observed_generation = 0;
}

abbrev pub api_service : String → TargetPorts → Service
api_service namespace ports = record {
  name = px_api_service_name;
  namespace = namespace;
  labels = api_labels;
  selector = api_labels;
  service_type = "ClusterIP";
  cluster_ip = "";
  ports = api_service_ports ports;
}

module _ {W : Type 0} (ops : PxClusterOps W) where
  -- A creation whose result is dropped.
  abbrev create : DaemonSet → Action W (Unit {0})
  create ds w = let (answer, w') = ops.k8s_apps.create_daemon_set ds w in (answer.0, w')

  -- `checkAPIDaemonset`
  unfoldable pub check_api_daemonset : String → Affinity → Action W (Unit {0})
  check_api_daemonset namespace affinity =
      catch (ops.k8s_apps.get_daemon_set px_api_daemonset namespace >> pure tt)
        λ e. if is_not_found e then create (api_daemonset namespace affinity) else raise e

  -- `checkAPIService`
  unfoldable pub check_api_service : String → TargetPorts → Action W (Unit {0})
  unfolding api_service_ports
  check_api_service namespace ports = do
    is_there ←
        catch (ops.core_ops.get_service px_api_service_name namespace >> pure true)
          λ e. if is_not_found e then pure false else raise e
    if is_there
        then ops.core_ops.patch_service px_api_service_name namespace (api_service_ports ports)
        else ops.core_ops.create_service (api_service namespace ports)
