-- ===== src/Px/Permissions.antt =====
-- pkg/cluster/px/px.go: `updatePxSecretsPermissions` and what it calls.
pub mod Stored
use talisman.Common.{String, List, [], ◌∷◌, if◌then◌else◌}
use talisman.Go.Results.{
  index_out_of_range, is_already_exists, Action, pure, raise, crash, ◌>>=◌, ◌>>◌, catch,
}
use talisman.Kube.Objects.{PolicyRule, Role, Subject, RoleRef, RoleBinding}
use talisman.Px.Names.{
  px_role_name, px_role_binding_name, px_secrets_namespace, px_service_account_name,
}
use talisman.Px.Ops.{PxClusterOps}

-- `xs[0]`
abbrev pub first_of : {W A : Type 0} → List A → Action W A
first_of [] = crash index_out_of_range
first_of (x ∷ _) = pure x

abbrev pub secrets_role : Role
secrets_role = record {
  name = px_role_name;
  namespace = px_secrets_namespace;
  rules =
      record {
        api_groups = "" ∷ [];
        resources = "secrets" ∷ [];
        resource_names = [];
        verbs = "get" ∷ "list" ∷ "create" ∷ "update" ∷ "patch" ∷ [];
      }
      ∷ [];
}

-- The binding of that role to the service account of Portworx in a namespace.
abbrev pub secrets_role_binding : String → RoleBinding
secrets_role_binding ns = record {
  name = px_role_binding_name;
  namespace = px_secrets_namespace;
  subjects =
      record { kind = "ServiceAccount"; name = px_service_account_name; namespace = ns } ∷ [];
  role_ref = record { kind = "Role"; name = px_role_name; api_group = "rbac.authorization.k8s.io" };
}

module _ {W : Type 0} (ops : PxClusterOps W) where
  -- `createOrUpdateRole`
  unfoldable pub create_or_update_role : Role → Action W (Unit {0})
  create_or_update_role role =
      catch (ops.k8s_rbac.create_role role)
        λ e. if is_already_exists e then ops.k8s_rbac.update_role role else raise e

  -- `createOrUpdateRoleBinding`
  unfoldable pub create_or_update_role_binding : RoleBinding → Action W (Unit {0})
  create_or_update_role_binding binding =
      catch (ops.k8s_rbac.create_role_binding binding)
        λ e. if is_already_exists e then ops.k8s_rbac.update_role_binding binding else raise e

  -- `updatePxSecretsPermissions`; the first namespace is read when the binding is built.
  unfoldable pub update_px_secrets_permissions : Action W (Unit {0})
  unfolding create_or_update_role create_or_update_role_binding
  update_px_secrets_permissions = do
    catch (ops.core_ops.create_namespace px_secrets_namespace)
        λ e. if is_already_exists e then pure tt else raise e
    create_or_update_role secrets_role
    ns ← first_of ops.installed_namespaces
    create_or_update_role_binding (secrets_role_binding ns)
