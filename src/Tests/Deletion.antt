-- ===== src/Tests/Deletion.antt =====
-- A cluster with a daemon set of Portworx, some of its components and two objects of others.
use talisman.Common.{
  String, ◌==◌, ◌≡◌, refl, Bool, true, false, not, ◌&&◌, inl, inr, Option, none, some, List, [],
  ◌∷◌, arith, Bool-cases, eqb, ◌↔◌, eq_iff, if◌then◌else◌,
}
use mathlib.Core.Path.{subst}
use talisman.Go.Results.{Error, api, is_missing, Action, ok, err}
use talisman.Kube.Objects.{DaemonSet}
use talisman.Kube.Presence.{
  ObjectKind, kind_code, daemon_set, deployment, stateful_set, cluster_role, cluster_role_binding,
  role, role_binding, service_account, service, secret, config_map, storage_class, webhook,
  namespace_object, Object, object, global, same_object, contains_object, Removes,
}
use talisman.Px.Ops.{PxClusterOps, platform_type_default}
use talisman.Px.Delete.Laws.{namespace_reach}
use talisman.Tests.Clients.{no_core, no_apps, no_rbac, no_storage, no_instance}

-- All that ever was in the cluster; the state says what is still there.
abbrev pub px : Object
px = object daemon_set "kube-system" "portworx"

abbrev lock : Object
lock = object config_map "kube-system" "px-bringup-queue-lock-1"

abbrev pub universe : List Object
universe =
    px
    ∷ lock
    ∷ object config_map "kube-system" "coredns"
    ∷ global cluster_role "stork-role"
    ∷ object deployment "kube-system" "stork"
    ∷ object deployment "kube-system" "web"
    ∷ object secret "portworx" "other"
    ∷ global namespace_object "portworx"
    ∷ []

abbrev pub World : Type 0
World = Object → Bool

abbrev pub has : World → Object → Bool
has w o = contains_object universe o && w o

abbrev pub everything : World
everything o = true

abbrev pub labelled : Object → Bool
labelled o = same_object px o

-- A request to delete an object takes with it what is in reach.
abbrev respond : Bool → (Object → Bool) → Action World (Unit {0})
respond true reach w = (ok tt, λ o. not (reach o) && w o)
respond false reach w = (err (api is_missing "not found"), w)

abbrev delete : Object → (Object → Bool) → Action World (Unit {0})
delete x reach w = respond (has w x) reach w

same_kind_iff : (a b : ObjectKind) → (eqb (kind_code a) (kind_code b) ≡ true) ↔ (a ≡ b)
same_kind_iff a b = ground arith

pub same_object-eq : (a b : Object) → same_object a b ≡ true → a ≡ b
unfolding same_object
same_object-eq a b h =
    ground
      (arith, h, same_kind_iff a.kind b.kind, eq_iff a.namespace b.namespace, eq_iff a.name b.name)

pub delete-Removes :
    (x : Object) (reach : Object → Bool)
    → ((o : Object) → same_object x o ≡ true → reach o ≡ true)
    → Removes has x reach (delete x reach)
delete-Removes x reach wide w = elim (Bool-cases (has w x)) [
  | inl there ↦ rw there (
    λ o h. ground (arith, h, wide o h),
    (λ o out. ground (arith, out), λ o absent. ground (arith, absent)),
  )
  | inr missing ↦ rw missing (
    λ _ o h. subst (λ y. has w y ≡ false) (same_object-eq x o h) missing,
    (λ o out. refl, λ o absent. absent),
  )
]

abbrev pub px_daemonset : DaemonSet
px_daemonset = record {
  name = "portworx";
  namespace = "kube-system";
  uid = "";
  labels = ("name", "portworx") ∷ [];
  annotations = none;
  selector = [];
  template_labels = [];
  pod = record {
    host_pid = false;
    host_network = true;
    affinity = none;
    containers = [];
    restart_policy = "";
    service_account_name = "px-account";
    volumes = [];
  };
  observed_generation = 1;
}

abbrev pub list_daemon_sets : String → Action World (List DaemonSet)
list_daemon_sets ns w = (ok (if has w px && "kube-system" == ns then px_daemonset ∷ [] else []), w)

abbrev pub list_config_map : String → World → (Option (List String) × Option Error) × World
list_config_map ns w = ((some ("coredns" ∷ "px-bringup-queue-lock-1" ∷ []), none), w)

abbrev pub deleter : ObjectKind → String → String → Action World (Unit {0})
deleter kind name ns = let x = object kind ns name in delete x (same_object x)

abbrev pub global_deleter : ObjectKind → String → Action World (Unit {0})
global_deleter kind name = let x = global kind name in delete x (same_object x)

abbrev pub ops : PxClusterOps World
ops = record {
  core_ops = record (no_core World) {
    list_config_map = list_config_map;
    delete_service_account = deleter service_account;
    delete_service = deleter service;
    delete_secret = deleter secret;
    delete_config_map = deleter config_map;
    delete_namespace = λ ns. delete (global namespace_object ns) (namespace_reach ns);
  };
  k8s_apps = record (no_apps World) {
    list_daemon_sets = λ ns _. list_daemon_sets ns;
    delete_daemon_set = deleter daemon_set;
    delete_deployment = deleter deployment;
    delete_stateful_set = deleter stateful_set;
  };
  k8s_rbac = record (no_rbac World) {
    delete_cluster_role = global_deleter cluster_role;
    delete_cluster_role_binding = global_deleter cluster_role_binding;
    delete_role = deleter role;
    delete_role_binding = deleter role_binding;
  };
  k8s_storage = record (no_storage World) { delete_storage_class = global_deleter storage_class };
  k8s_admissions = record { delete_mutating_webhook_configuration = global_deleter webhook };
  utils = no_instance World;
  docker_registry_secret = "";
  platform = platform_type_default;
  installed_namespaces = "kube-system" ∷ [];
}
