-- ===== src/Px/Permissions/Stored.antt =====
-- pkg/cluster/px/px.go: what is in the cluster after `updatePxSecretsPermissions`.
use talisman.Common.{String, ◌≡◌, inl, inr, Option, some, List, ◌∷◌, Bool-cases, if◌then◌else◌}
use talisman.Go.Results.{
  Result, ok, err, panic, is_already_exists, Action, continue_with, handle, pure, raise, ◌>>=◌,
  ◌>>◌, catch,
}
use talisman.Kube.Objects.{Role, RoleBinding}
use talisman.Px.Ops.{PxClusterOps}
use talisman.Px.Permissions.{
  first_of, secrets_role, secrets_role_binding, create_or_update_role,
  create_or_update_role_binding, update_px_secrets_permissions,
}

module _ {W X : Type 0} (has : W → X → Type 0) where
  -- After success the object is in the cluster.
  abbrev pub Puts : X → Result (Unit {0}) × W → Type 0
  Puts x (ok _, w') = has w' x
  Puts x (err _, w') = Unit
  Puts x (panic _, w') = Unit

  abbrev put : Action W (Unit {0}) → Action W (Unit {0}) → Action W (Unit {0})
  put create update = catch create λ e. if is_already_exists e then update else raise e

  -- An object that is created, or updated because it is there already.
  put-Puts :
      (x : X) (create update : Action W (Unit {0})) (w : W)
      → Puts x (create w)
      → ((w' : W) → Puts x (update w'))
      → Puts x (put create update w)
  put-Puts x create update w created updated = go (create w).0 (create w).1 created
    where
      go :
          (r : Result (Unit {0})) (w' : W)
          → Puts x (r, w')
          → Puts x (handle (λ e. if is_already_exists e then update else raise e) r w')
      go (ok _) w' h = h
      go (err e) w' h = elim (Bool-cases (is_already_exists e)) [
        | inl present ↦ rw present (updated w')
        | inr other ↦ rw other tt
      ]
      go (panic _) w' h = tt

module _ {W : Type 0} (role_at : W → String → String → Option Role)
    (binding_at : W → String → String → Option RoleBinding) where
  abbrev pub HasRole : W → Role → Type 0
  HasRole w r = role_at w r.namespace r.name ≡ some r

  abbrev pub HasBinding : W → RoleBinding → Type 0
  HasBinding w b = binding_at w b.namespace b.name ≡ some b

  -- A creation or an update that succeeds stores the object; calls for bindings leave the roles.
  pub record IsRbacStore (ops : PxClusterOps W) : Type 0 where
    pub create_role_puts : (r : Role) (w : W) → Puts HasRole r (ops.k8s_rbac.create_role r w)
    pub update_role_puts : (r : Role) (w : W) → Puts HasRole r (ops.k8s_rbac.update_role r w)
    pub create_role_binding_puts :
        (b : RoleBinding) (w : W) → Puts HasBinding b (ops.k8s_rbac.create_role_binding b w)
    pub update_role_binding_puts :
        (b : RoleBinding) (w : W) → Puts HasBinding b (ops.k8s_rbac.update_role_binding b w)
    pub create_role_binding_keeps :
        (b : RoleBinding) (r : Role) (w : W)
        → HasRole w r
        → HasRole (ops.k8s_rbac.create_role_binding b w).1 r
    pub update_role_binding_keeps :
        (b : RoleBinding) (r : Role) (w : W)
        → HasRole w r
        → HasRole (ops.k8s_rbac.update_role_binding b w).1 r

  -- After success Portworx may use secrets from the namespace.
  abbrev pub Granted : String → Result (Unit {0}) × W → Type 0
  Granted ns (ok _, w) = HasRole w secrets_role × HasBinding w (secrets_role_binding ns)
  Granted ns (err _, w) = Unit
  Granted ns (panic _, w) = Unit

  module _ (ops : PxClusterOps W) (store : IsRbacStore ops) where
    pub create_or_update_role-Puts :
        (r : Role) (w : W) → Puts HasRole r (create_or_update_role ops r w)
    unfolding create_or_update_role
    create_or_update_role-Puts r w =
        put-Puts HasRole r (ops.k8s_rbac.create_role r) (ops.k8s_rbac.update_role r) w
          (store.create_role_puts r w) (store.update_role_puts r)

    pub create_or_update_role_binding-Puts :
        (b : RoleBinding) (w : W) → Puts HasBinding b (create_or_update_role_binding ops b w)
    unfolding create_or_update_role_binding
    create_or_update_role_binding-Puts b w =
        put-Puts HasBinding b (ops.k8s_rbac.create_role_binding b)
          (ops.k8s_rbac.update_role_binding b) w (store.create_role_binding_puts b w)
          (store.update_role_binding_puts b)

    create_or_update_role_binding-keeps :
        (b : RoleBinding) (r : Role) (w : W)
        → HasRole w r
        → HasRole (create_or_update_role_binding ops b w).1 r
    unfolding create_or_update_role_binding
    create_or_update_role_binding-keeps b r w h =
        go (ops.k8s_rbac.create_role_binding b w).0 (ops.k8s_rbac.create_role_binding b w).1
          (store.create_role_binding_keeps b r w h)
      where
        go :
            (res : Result (Unit {0})) (w' : W)
            → HasRole w' r
            → HasRole
                (handle
                  (λ e. if is_already_exists e then ops.k8s_rbac.update_role_binding b else raise e)
                  res
                  w').1
                r
        go (ok _) w' k = k
        go (err e) w' k = elim (Bool-cases (is_already_exists e)) [
          | inl present ↦ rw present (store.update_role_binding_keeps b r w' k)
          | inr other ↦ rw other k
        ]
        go (panic _) w' k = k

    -- If the calls store what they are given, then after `update_px_secrets_permissions` succeeds
    -- the role for secrets is in the cluster, and its binding to the service account of Portworx in
    -- the first namespace of the installation.
    pub update_px_secrets_permissions-Granted :
        (ns : String) (rest : List String) (w : W)
        → ops.installed_namespaces ≡ ns ∷ rest
        → Granted ns (update_px_secrets_permissions ops w)
    unfolding update_px_secrets_permissions
    update_px_secrets_permissions-Granted ns rest w installed =
        rw installed (created namespace_made.0 namespace_made.1)
      where
        namespace_made : Result (Unit {0}) × W
        namespace_made =
            catch (ops.core_ops.create_namespace "portworx")
              (λ e. if is_already_exists e then pure tt else raise e) w

        bound :
            (w' : W)
            → HasRole w' secrets_role
            → (o : Result (Unit {0}) × W) → Puts HasBinding (secrets_role_binding ns) o
            → HasRole o.1 secrets_role
            → Granted ns o
        bound w' h (ok _, w'') binding role = (role, binding)
        bound w' h (err _, w'') binding role = tt
        bound w' h (panic _, w'') binding role = tt

        with_role :
            (r : Result (Unit {0})) (w' : W)
            → Puts HasRole secrets_role (r, w')
            → Granted ns (
                continue_with
                  (λ _. first_of (ns ∷ rest) >>= λ ns.
                    create_or_update_role_binding ops (secrets_role_binding ns))
                  r
                  w')
        with_role (ok _) w' h =
            bound w' h _ (create_or_update_role_binding-Puts (secrets_role_binding ns) w')
              (create_or_update_role_binding-keeps (secrets_role_binding ns) secrets_role w' h)
        with_role (err _) w' h = tt
        with_role (panic _) w' h = tt

        created :
            (r : Result (Unit {0})) (w' : W)
            → Granted ns (
                continue_with
                  (λ _.
                    create_or_update_role ops secrets_role
                    >> (first_of (ns ∷ rest) >>= λ ns.
                        create_or_update_role_binding ops (secrets_role_binding ns)))
                  r
                  w')
        created (ok _) w' =
            with_role (create_or_update_role ops secrets_role w').0
              (create_or_update_role ops secrets_role w').1
              (create_or_update_role-Puts secrets_role w')
        created (err _) w' = tt
        created (panic _) w' = tt
