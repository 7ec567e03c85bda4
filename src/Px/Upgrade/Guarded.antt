-- ===== src/Px/Upgrade/Guarded.antt =====
-- pkg/cluster/px/px.go: the checks of `Upgrade`, and the changes of the cluster.
use talisman.Common.{String, ◌≡◌, false, Option, List}
use mathlib.Core.Path.{subst}
use talisman.Go.Results.{Result, ok, err, panic, Action, continue_with, pure, ◌>>=◌}
use talisman.Go.Retry.{Retrier}
use talisman.Api.{ClusterSpec}
use talisman.Openstorage.{VolumeDriver, ClusterManager}
use talisman.K8sutils.Scaling.Change.{IntOrString}
use talisman.Px.Names.{px_service_name}
use talisman.Px.Ops.{PxClusterOps, UpgradeOptions}
use talisman.Px.Upgrade.{with_defaults, required, get_px_driver, upgrade}
use talisman.Px.Upgrade.Quiet.{pure-Quiet, then-Quiet, catch-Quiet, if-Quiet}
use talisman.Px.Upgrade.Reading.{
  whole, Reads, IsReader, is_upgrade_app_drain_required-Reads, parse_config_from_daemonset-Reads,
}
use talisman.Px.Upgrade.Checks.{
  Verdict, guard, admitted, fact_of, if-false, px_endpoint, Admitted, AreReaders,
}
use talisman.Px.Upgrade.Preflight.{
  required-eq, required-Reads, only_namespace-eq, only_namespace-Reads, check_parsed-IsAccepted,
  check_parsed-Reads, pre_flight_checks-Verdict, pre_flight_checks-Reads, check_drain-Reads,
  check_drain-managed,
}

module _ (R : Retrier) {W : Type 0} (ops : PxClusterOps W) (parse : String → IntOrString)
    (new_driver_client : String → String → String → String → Action W (VolumeDriver W))
    (new_cluster_client : String → String → Action W (ClusterManager W))
    (read_all : String → Result (List (List String))) (reader : IsReader ops)
    (clients : AreReaders new_driver_client new_cluster_client) where
  get_px_driver-Reads :
      (ip : String)
      → Reads (get_px_driver R ops parse new_driver_client new_cluster_client read_all ip)
  unfolding get_px_driver
  get_px_driver-Reads ip = then-Quiet whole _ _ (clients.new_driver_client_reads _ _ _ _) λ driver.
      then-Quiet whole _ _ (clients.new_cluster_client_reads _ _)
        λ manager. pure-Quiet whole (ok (driver, manager))

  get_px_driver-connected :
      (ip : String) (w : W) (driver : VolumeDriver W) (manager : ClusterManager W)
      → (get_px_driver R ops parse new_driver_client new_cluster_client read_all ip w).0
        ≡ ok (driver, manager)
      → (new_cluster_client (px_endpoint ip) "v1" w).0 ≡ ok manager
  unfolding get_px_driver
  get_px_driver-connected ip w driver manager =
      go (new_driver_client (px_endpoint ip) "pxd" "" "pxd" w).0 _
        ((clients.new_driver_client_reads (px_endpoint ip) "pxd" "" "pxd").quiet w tt)
    where
      inner : VolumeDriver W → Action W (VolumeDriver W × ClusterManager W)
      inner d = do m ← new_cluster_client (px_endpoint ip) "v1"; pure (d, m)

      second :
          (d : VolumeDriver W) (r : Result (ClusterManager W)) (w' : W)
          → (continue_with {B = VolumeDriver W × ClusterManager W} (λ m. pure (d, m)) r w').0
            ≡ ok (driver, manager)
          → r ≡ ok manager
      second d (ok m) w' e = cc
      second d (err _) w' e = cc
      second d (panic _) w' e = cc

      go :
          (r : Result (VolumeDriver W)) (w' : W)
          → w' ≡ w
          → (continue_with inner r w').0 ≡ ok (driver, manager)
          → (new_cluster_client (px_endpoint ip) "v1" w).0 ≡ ok manager
      go (ok d) w' h e =
          second d (new_cluster_client (px_endpoint ip) "v1" w).0
            (new_cluster_client (px_endpoint ip) "v1" w).1
            (subst (λ v. (inner d v).0 ≡ ok (driver, manager)) h e)
      go (err _) w' h e = cc
      go (panic _) w' h e = cc

  -- Where the calls that read leave the cluster as it is, an upgrade that has changed anything of it,
  -- or has succeeded, has made all its checks: a specification with a version was given, Portworx
  -- is installed in one namespace, its service has an address, its daemon sets are there and all of
  -- them ready, no pod that uses Portworx is unmanaged if a drain is required, and the
  -- configuration was parsed, but for the error of an internal etcd.
  pub upgrade-Admitted :
      (new_spec : Option ClusterSpec) (opts : Option UpgradeOptions) (w : W)
      → Verdict
          (Admitted ops new_cluster_client read_all new_spec w)
          w
          (upgrade R ops parse new_driver_client new_cluster_client read_all new_spec opts w)
  unfolding upgrade
  upgrade-Admitted new_spec opts w =
      let F : Type 0 = Admitted ops new_cluster_client read_all new_spec w in
      guard F w (required new_spec) _ (required-Reads new_spec) λ spec given.
        guard F w _ _ (only_namespace-Reads ops.installed_namespaces) λ ns only.
          guard F w _ _ (reader.get_service_reads px_service_name ns) λ svc found.
            guard F w _ _
              (if-Quiet whole _ _ _ (pure-Quiet whole (err _)) (pure-Quiet whole (ok tt)))
              λ _ addressed.
                guard F w _ _ (get_px_driver-Reads svc.cluster_ip) λ (driver, manager) connected.
                  guard F w _ _ (pre_flight_checks-Reads ops reader spec) λ _ checked.
                    guard F w _ _
                      (catch-Quiet whole _ _
                        (is_upgrade_app_drain_required-Reads ops reader manager
                          (clients.enumerate_reads (px_endpoint svc.cluster_ip) "v1" w manager
                            (get_px_driver-connected svc.cluster_ip w driver manager connected))
                          (with_defaults spec))
                        λ e. pure-Quiet whole (ok false))
                      λ drained decided.
                        guard F w _ _ (check_drain-Reads ops reader drained) λ _ checked_drain.
                          guard F w _ _ (parse_config_from_daemonset-Reads ops reader read_all)
                            λ parsed configured.
                              guard F w _ _ (check_parsed-Reads parsed.error) λ _ accepted.
                                admitted (record {
                                  spec = spec;
                                  given = required-eq new_spec w spec given;
                                  namespace = ns;
                                  only = only_namespace-eq ops.installed_namespaces w ns only;
                                  service = svc;
                                  found = found;
                                  reachable = if-false _ _ w addressed;
                                  ready =
                                      fact_of (pre_flight_checks-Verdict ops reader spec w) tt
                                        checked;
                                  manager = manager;
                                  connected =
                                      get_px_driver-connected svc.cluster_ip w driver manager
                                        connected;
                                  drained = drained;
                                  decided = decided;
                                  managed = check_drain-managed ops reader drained w checked_drain;
                                  parsed = parsed;
                                  configured = configured;
                                  accepted = check_parsed-IsAccepted parsed w accepted;
                                })
