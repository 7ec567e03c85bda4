-- ===== src/Tests/Pods.antt =====
-- A cluster with a pod that mounts a claim of Portworx and has no controller.
use talisman.Common.{
  String, ◌==◌, ◌≡◌, refl, Bool, true, false, Option, none, some, List, [], ◌∷◌, if◌then◌else◌,
}
use talisman.Go.Results.{api, other_reason, Action, ok, err, pure}
use talisman.Go.Text.{contains}
use talisman.Kube.Objects.{Pod, PersistentVolumeClaim}
use talisman.K8sutils.Instance.{Instance}
use talisman.K8sutils.Pods.{lacks_storage_class, is_any_px_app_pod_unmanaged}
use talisman.K8sutils.Pods.Unmanaged.{
  PodInventory, Answers, Reports, is_any_px_app_pod_unmanaged_correct,
}
use talisman.Tests.Clients.{no_core, no_instance}

abbrev World : Type 0
World = Bool

abbrev controlled : Pod
controlled = record {
  name = "web";
  namespace = "prod";
  volumes =
      record { is_portworx_volume = false; claim_name = none }
      ∷ record { is_portworx_volume = false; claim_name = some "plain" }
      ∷ record { is_portworx_volume = false; claim_name = some "px" }
      ∷ [];
}

abbrev loose : Pod
loose = record {
  name = "job";
  namespace = "prod";
  volumes = record { is_portworx_volume = false; claim_name = some "px" } ∷ [];
}

abbrev provisioner : PersistentVolumeClaim → Option String
provisioner pvc = if pvc.name == "px" then some "kubernetes.io/portworx-volume" else none

abbrev inventory : List Pod → PodInventory
inventory pods = record {
  pods = pods;
  claim = λ name namespace. record { name = name; namespace = namespace; volume_name = name };
  volume = λ name. record { name = name; is_portworx_volume = false };
  provisioner = provisioner;
  managed = λ p. p.name == "web";
}

abbrev answer : Option String → Action World String
answer none w = (err (api other_reason "PVC: plain does not have a storage class"), w)
answer (some s) w = (ok s, w)

abbrev client : List Pod → Instance World
client pods = record (no_instance World) {
  k8s_ops = record (no_core World) {
    get_pods = λ _. pure pods;
    is_pod_being_managed = λ p w. (p.name == "web", w);
    get_persistent_volume_claim =
        λ name namespace. pure (record { name = name; namespace = namespace; volume_name = name });
    get_persistent_volume = λ name. pure (record { name = name; is_portworx_volume = false });
    get_storage_provisioner_for_pvc = λ pvc. answer (provisioner pvc);
  };
}

answers :
    (pods : List Pod) (p : Option String) (w : World)
    → Answers (inventory pods) (client pods) p w (answer p w)
unfolding lacks_storage_class contains
answers pods none w = ("PVC: plain does not have a storage class", refl, refl)
answers pods (some s) w = refl

client-Reports : (pods : List Pod) → Reports (inventory pods) (client pods)
client-Reports pods = record {
  reports_pods = λ w. refl;
  reports_claim = λ name namespace w. refl;
  reports_volume = λ name w. refl;
  reports_provisioner = λ pvc w. answers pods (provisioner pvc) w;
  reports_managed = λ p w. refl;
}

is_any_px_app_pod_unmanaged_correct_example :
    is_any_px_app_pod_unmanaged (client (controlled ∷ loose ∷ [])) true ≡ (ok true, true)
is_any_px_app_pod_unmanaged_correct_example =
    is_any_px_app_pod_unmanaged_correct (inventory (controlled ∷ loose ∷ []))
      (client (controlled ∷ loose ∷ [])) (client-Reports (controlled ∷ loose ∷ [])) true
