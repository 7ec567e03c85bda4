-- ===== src/Px/Upgrade/Checks.antt =====
-- What each check of `Upgrade` has found where it succeeds.
use talisman.Common.{
  String, ◌<>◌, ◌==◌, ◌≡◌, ◌≢◌, refl, ◌⊎◌, Bool, true, false, Option, none, some, List, [], ◌∷◌,
  if◌then◌else◌,
}
use talisman.Go.Results.{
  Error, using_internal_etcd, Result, ok, err, panic, Action, continue_with, pure, raise, ◌>>=◌,
  catch,
}
use talisman.Kube.Objects.{DaemonSet, Service}
use talisman.Api.{ClusterSpec}
use talisman.Openstorage.{VolumeDriver, ClusterManager}
use talisman.K8sutils.Instance.{minute}
use talisman.K8sutils.Pods.{is_any_px_app_pod_unmanaged}
use talisman.Px.Names.{px_service_name}
use talisman.Px.Ops.{PxClusterOps, is_empty}
use talisman.Px.Daemonsets.{get_px_daemonsets}
use talisman.Px.Drain.{is_upgrade_app_drain_required}
use talisman.Px.Config.{Parsed, parse_config_from_daemonset}
use talisman.Px.Upgrade.{with_defaults}
use talisman.Px.Upgrade.Reading.{Reads}

-- Either the action has changed nothing and has not succeeded, or a fact holds.
pub data Verdict {W A : Type 0} (Fact : Type 0) (w : W) (o : Result A × W) : Type 0 where
  refused : o.1 ≡ w → ((a : A) → o.0 ≢ ok a) → Verdict Fact w o
  admitted : Fact → Verdict Fact w o

pub fact_of :
    {W A : Type 0} {Fact : Type 0} {w : W} {o : Result A × W}
    → Verdict Fact w o
    → (a : A) → o.0 ≡ ok a
    → Fact
fact_of (refused _ never) a e = absurd (never a e)
fact_of (admitted f) a e = f

pub if-false :
    {W : Type 0} (b : Bool) (e : Error) (w : W)
    → ((if b then raise {S = W} e else pure tt) w).0 ≡ ok tt
    → b ≡ false
if-false true e w h = cc
if-false false e w h = refl

module _ {W A B : Type 0} (Fact : Type 0) (w : W) where
  -- A check that only reads, and what follows where it gives a value.
  pub guard :
      (m : Action W A) (f : A → Action W B)
      → Reads m
      → ((a : A) → (m w).0 ≡ ok a → Verdict Fact w (f a w))
      → Verdict Fact w ((m >>= f) w)
  guard m f reads next = go (m w).0 (m w).1 refl (reads.quiet w tt)
    where
      go : (r : Result A) (w' : W) → (m w).0 ≡ r → w' ≡ w → Verdict Fact w (continue_with f r w')
      go (ok a) w' e h = rw h (next a e)
      go (err _) w' e h = refused h λ a. cc
      go (panic _) w' e h = refused h λ a. cc

abbrev pub AllValid : {W : Type 0} → PxClusterOps W → W → List DaemonSet → Type 0
AllValid ops w [] = Unit
AllValid ops w (d ∷ ds) =
    ((ops.k8s_apps.validate_daemon_set d.name d.namespace minute w).0 ≡ ok tt) × AllValid ops w ds

-- A version is given, and Portworx has daemon sets, all of them ready.
pub record IsReady {W : Type 0} (ops : PxClusterOps W) (spec : ClusterSpec) (w : W) : Type 0 where
  pub versioned : (spec.oci_mon_tag == "") ≡ false
  pub dss : List DaemonSet
  pub listed : (get_px_daemonsets ops w).0 ≡ ok dss
  pub installed : is_empty dss ≡ false
  pub valid : AllValid ops w dss

-- A configuration that the upgrade accepts.
abbrev pub IsAccepted : Parsed → Type 0
IsAccepted p = (p.error ≡ none) ⊎ (p.error ≡ some using_internal_etcd)

abbrev pub px_endpoint : String → String
px_endpoint ip = "http://" <> (ip <> ":9001")

module _ {W : Type 0} (ops : PxClusterOps W)
    (new_cluster_client : String → String → Action W (ClusterManager W))
    (read_all : String → Result (List (List String))) where
  -- What has been found in a cluster that is upgraded.
  pub record Admitted (new_spec : Option ClusterSpec) (w : W) : Type 0 where
    pub spec : ClusterSpec
    pub given : new_spec ≡ some spec
    pub namespace : String
    pub only : ops.installed_namespaces ≡ namespace ∷ []
    pub service : Service
    pub found : (ops.core_ops.get_service px_service_name namespace w).0 ≡ ok service
    pub reachable : (service.cluster_ip == "") ≡ false
    pub ready : IsReady ops spec w
    pub manager : ClusterManager W
    pub connected : (new_cluster_client (px_endpoint service.cluster_ip) "v1" w).0 ≡ ok manager
    pub drained : Bool
    pub decided :
        (catch (is_upgrade_app_drain_required (with_defaults spec) manager) (λ _. pure false) w).0
        ≡ ok drained
    pub managed : drained ≡ true → (is_any_px_app_pod_unmanaged ops.utils w).0 ≡ ok false
    pub parsed : Parsed
    pub configured : (parse_config_from_daemonset ops read_all w).0 ≡ ok parsed
    pub accepted : IsAccepted parsed

module _ {W : Type 0}
    (new_driver_client : String → String → String → String → Action W (VolumeDriver W))
    (new_cluster_client : String → String → Action W (ClusterManager W)) where
  -- The clients of openstorage are made without a change of the cluster, and so are the nodes read.
  pub record AreReaders : Type 0 where
    pub new_driver_client_reads :
        (endpoint name version user : String) → Reads (new_driver_client endpoint name version user)
    pub new_cluster_client_reads :
        (endpoint version : String) → Reads (new_cluster_client endpoint version)
    pub enumerate_reads :
        (endpoint version : String) (w : W) (manager : ClusterManager W)
        → (new_cluster_client endpoint version w).0 ≡ ok manager
        → Reads manager.enumerate
