-- ===== src/Tests/Permissions.antt =====
-- A cluster that keeps the roles and bindings that it is given.
use talisman.Common.{
  String, ◌≡◌, refl, eq_refl, ◌&&◌, ◌==◌, Option, none, some, [], ◌∷◌, if◌then◌else◌,
}
use talisman.Go.Results.{api, is_present, Action, ok, err}
use talisman.Kube.Objects.{Role, RoleBinding}
use talisman.Px.Ops.{PxClusterOps, platform_type_default}
use talisman.Px.Permissions.{update_px_secrets_permissions}
use talisman.Px.Permissions.Stored.{IsRbacStore, Granted, update_px_secrets_permissions-Granted}
use talisman.Tests.Clients.{no_core, no_apps, no_rbac, no_storage, no_admissions, no_instance}

-- The role and the binding that were stored last.
abbrev World : Type 0
World = Option Role × Option RoleBinding

abbrev at : {A : Type 0} → (A → String) → (A → String) → Option A → String → String → Option A
at namespace_of name_of none ns name = none
at namespace_of name_of (some a) ns name =
    if namespace_of a == ns && name_of a == name then some a else none

abbrev role_at : World → String → String → Option Role
role_at w = at (λ r. r.namespace) (λ r. r.name) w.0

abbrev binding_at : World → String → String → Option RoleBinding
binding_at w = at (λ b. b.namespace) (λ b. b.name) w.1

abbrev exists_already : {A : Type 0} → Action World A
exists_already w = (err (api is_present "already exists"), w)

-- The namespace and the role exist already, the binding does not.
abbrev ops : PxClusterOps World
ops = record {
  core_ops = record (no_core World) { create_namespace = λ _. exists_already };
  k8s_apps = no_apps World;
  k8s_rbac = record (no_rbac World) {
    create_role = λ _. exists_already;
    update_role = λ r w. (ok tt, (some r, w.1));
    create_role_binding = λ b w. (ok tt, (w.0, some b));
  };
  k8s_storage = no_storage World;
  k8s_admissions = no_admissions World;
  utils = no_instance World;
  docker_registry_secret = "";
  platform = platform_type_default;
  installed_namespaces = "kube-system" ∷ [];
}

at_self :
    {A : Type 0} (namespace_of name_of : A → String) (a : A)
    → at namespace_of name_of (some a) (namespace_of a) (name_of a) ≡ some a
at_self namespace_of name_of a = rw (eq_refl (namespace_of a), eq_refl (name_of a)) refl

ops-IsRbacStore : IsRbacStore role_at binding_at ops
ops-IsRbacStore = record {
  create_role_puts = λ r w. tt;
  update_role_puts = λ r w. at_self (λ r. r.namespace) (λ r. r.name) r;
  create_role_binding_puts = λ b w. at_self (λ b. b.namespace) (λ b. b.name) b;
  update_role_binding_puts = λ b w. tt;
  create_role_binding_keeps = λ b r w h. h;
  update_role_binding_keeps = λ b r w h. h;
}

update_px_secrets_permissions-Granted_example :
    Granted role_at binding_at "kube-system" (update_px_secrets_permissions ops (none, none))
update_px_secrets_permissions-Granted_example =
    update_px_secrets_permissions-Granted role_at binding_at ops ops-IsRbacStore "kube-system" []
      (none, none) refl
