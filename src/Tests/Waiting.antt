-- ===== src/Tests/Waiting.antt =====
-- A volume that is detached after two reports, the second of which fails.
use talisman.Common.{ℕ, zero, suc, ◌≡◌, refl, true, false, List, [], ◌∷◌}
use talisman.Go.Results.{ok, err, timed_out, pure, Result}
use talisman.Go.Retry.{bounded_retrier}
use talisman.Go.Retry.Rounds.{bounded_retrier-HasRounds}
use talisman.Openstorage.{DriverVolume, VolumeDriver}
use talisman.K8sutils.Instance.{default_retry_interval}
use talisman.Px.Names.{shared_vol_detach_timeout}
use talisman.Px.Ops.{PxClusterOps, platform_type_default}
use talisman.Px.Detach.{volumes_to_inspect, wait_till_px_shared_volumes_detached}
use talisman.Px.Detach.Progress.{
  detached, attached, failed, wait_till_px_shared_volumes_detached-succeeds,
}
use talisman.Tests.Clients.{no_core, no_apps, no_rbac, no_storage, no_admissions, no_instance}

-- The state counts the reports.
abbrev report : ℕ → Result (List DriverVolume)
report zero = ok (record { name = "v1"; is_attached = true } ∷ [])
report (suc zero) = err timed_out
report (suc (suc n)) = ok (record { name = "v1"; is_attached = false } ∷ [])

abbrev driver : VolumeDriver ℕ
driver = record { inspect = λ names w. (report w, suc w) }

abbrev ops : PxClusterOps ℕ
ops = record {
  core_ops = record (no_core ℕ) {
    get_pvcs_using_storage_class =
        λ sc. pure (record { name = "data"; namespace = "default"; volume_name = "v1" } ∷ []);
    get_volume_for_persistent_volume_claim = λ pvc. pure pvc.volume_name;
  };
  k8s_apps = no_apps ℕ;
  k8s_rbac = no_rbac ℕ;
  k8s_storage = no_storage ℕ;
  k8s_admissions = no_admissions ℕ;
  utils = record (no_instance ℕ) {
    kube_client = record (no_instance ℕ).kube_client {
      list_storage_classes = pure (record { name = "shared" } ∷ []);
    };
    storage_ops = record (no_storage ℕ) {
      get_storage_class_params = λ sc. pure (("shared", "true") ∷ []);
    };
  };
  docker_registry_secret = "";
  platform = platform_type_default;
  installed_namespaces = "kube-system" ∷ [];
}

listed : volumes_to_inspect ops 0 ≡ (ok ("v1" ∷ []), 0)
unfolding volumes_to_inspect
listed = refl

wait_till_px_shared_volumes_detached-succeeds_example :
    wait_till_px_shared_volumes_detached ops (bounded_retrier 5) driver 0 ≡ (ok tt, 3)
wait_till_px_shared_volumes_detached-succeeds_example =
    wait_till_px_shared_volumes_detached-succeeds ops driver (bounded_retrier 5) 5 ("v1" ∷ []) 0 0 3
      (bounded_retrier-HasRounds 5 shared_vol_detach_timeout default_retry_interval) listed
      (attached refl refl (failed refl (detached refl refl)))
