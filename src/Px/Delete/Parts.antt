-- ===== src/Px/Delete/Parts.antt =====
-- What each part of `deleteAllPXComponents` deletes.
use talisman.Common.{String, Bool, ◌||◌, List, [], ◌∷◌, ◌++◌, map, arith}
use talisman.Go.Results.{Action, ◌>>◌, ignore_not_found, for_each}
use talisman.Kube.Presence.{
  ObjectKind, deployment, stateful_set, cluster_role, cluster_role_binding, role, role_binding,
  service_account, service, secret, config_map, storage_class, webhook, namespace_object, Object,
  object, global, same_object, contains_object, Removes,
}
use talisman.Px.Names
use talisman.Px.Ops.{PxClusterOps}
use talisman.Px.Delete.{
  cluster_config_maps, stripped_cluster_name, cluster_wide_secret, delete_cluster_roles,
  delete_cluster_role_bindings, delete_cluster_wide, delete_namespace_components,
}
use talisman.Px.Delete.Laws.{IsDeleter, namespace_reach, namespace_objects, objects_of_namespaces}
use talisman.Px.Delete.Rules.{
  Deletes, Deletes-then, Deletes-weaken, ignore_not_found-Deletes, DeletesAll, DeletesAll-one,
  DeletesAll-then, for_each-DeletesAll-map, no_objects-DeletesAll,
}

module _ {W : Type 0} {listed : Bool} (has : W → Object → Bool) (labelled : Object → Bool)
    (ops : PxClusterOps W) (D : IsDeleter has labelled listed ops) where
  -- A loop over the names of objects of one kind.
  loop :
      (x : String → Object) (m : String → Action W (Unit {0}))
      → ((name : String) → Removes has (x name) (same_object (x name)) (m name))
      → (names : List String)
      → DeletesAll has (map x names) (for_each names λ name. ignore_not_found (m name))
  loop x m law =
      for_each-DeletesAll-map has x _ λ name. DeletesAll-one has (x name) (m name) (law name)

  abbrev pub cluster_roles : List String
  cluster_roles =
      Names.px_cluster_role_name ∷ Names.stork_controller_cluster_role
      ∷ Names.stork_scheduler_cluster_role ∷ Names.pvc_controller_cluster_role
      ∷ Names.csi_cluster_role ∷ []

  pub delete_cluster_roles-DeletesAll :
      DeletesAll has (map (global cluster_role) cluster_roles) (delete_cluster_roles ops)
  unfolding delete_cluster_roles
  delete_cluster_roles-DeletesAll =
      loop (global cluster_role) ops.k8s_rbac.delete_cluster_role D.delete_cluster_role_removes
        cluster_roles

  abbrev pub cluster_role_bindings : List String
  cluster_role_bindings =
      Names.px_cluster_role_binding_name ∷ Names.stork_controller_cluster_binding
      ∷ Names.stork_scheduler_cluser_binding ∷ Names.pvc_controller_cluster_role_binding
      ∷ Names.csi_cluster_role_binding ∷ []

  pub delete_cluster_role_bindings-DeletesAll :
      DeletesAll has
        (map (global cluster_role_binding) cluster_role_bindings)
        (delete_cluster_role_bindings ops)
  unfolding delete_cluster_role_bindings
  delete_cluster_role_bindings-DeletesAll =
      loop (global cluster_role_binding) ops.k8s_rbac.delete_cluster_role_binding
        D.delete_cluster_role_binding_removes cluster_role_bindings

  -- What deletes the objects one after another; the last step deletes a namespace.
  abbrev pub cluster_wide_objects : String → List Object
  cluster_wide_objects cluster =
      object secret "portworx" (cluster_wide_secret cluster)
      ∷ global storage_class "stork-snapshot-sc"
      ∷ global webhook "stork-webhooks-cfg"
      ∷ []

  pub delete_cluster_wide-Deletes :
      (cluster : String)
      → Deletes has
          (λ o.
            contains_object (cluster_wide_objects cluster) o
            || same_object (global namespace_object "portworx") o)
          (λ o. contains_object (cluster_wide_objects cluster) o || namespace_reach "portworx" o)
          (delete_cluster_wide ops cluster)
  unfolding delete_cluster_wide
  delete_cluster_wide-Deletes cluster =
      Deletes-weaken has _ _ _ _ _ (λ o h. ground (arith, h)) (λ o h. ground (arith, h))
        (Deletes-then has _ _ _ _ _ _
          (one _ _ _ (D.delete_secret_removes (cluster_wide_secret cluster) "portworx"))
          (Deletes-then has _ _ _ _ _ _
            (one _ _ _ (D.delete_storage_class_removes "stork-snapshot-sc"))
            (Deletes-then has _ _ _ _ _ _
              (one _ _ _ (D.delete_webhook_removes "stork-webhooks-cfg"))
              (one _ _ _ (D.delete_namespace_removes "portworx")))))
    where
      one :
          (x : Object) (reach : Object → Bool) (m : Action W (Unit {0}))
          → Removes has x reach m
          → Deletes has (same_object x) reach (ignore_not_found m)
      one = ignore_not_found-Deletes has

  -- A loop over pairs of a name and a namespace.
  loop_pairs :
      (kind : ObjectKind) (m : String → String → Action W (Unit {0}))
      → ((name ns : String)
          → Removes has (object kind ns name) (same_object (object kind ns name)) (m name ns))
      → (pairs : List (String × String))
      → DeletesAll has
          (map (λ p. object kind p.1 p.0) pairs)
          (for_each {A = String × String} pairs λ p. ignore_not_found (m p.0 p.1))
  loop_pairs kind m law =
      for_each-DeletesAll-map has _ _
        λ p. DeletesAll-one has (object kind p.1 p.0) (m p.0 p.1) (law p.0 p.1)

  pub delete_namespace_components-DeletesAll :
      (cluster ns : String)
      → DeletesAll has
          (namespace_objects cluster ns)
          (delete_namespace_components ops (stripped_cluster_name cluster) ns)
  unfolding delete_namespace_components namespace_objects
  delete_namespace_components-DeletesAll cluster ns =
      after _ _ _ _ (DeletesAll-one has _ _ (D.delete_daemon_set_removes "portworx-api" ns)) (
        after _ _ _ _
          (in_ns deployment _ D.delete_deployment_removes (
            "stork" ∷ "stork-scheduler" ∷ "portworx-pvc-controller" ∷ "px-lighthouse" ∷ "px-csi-ext"
            ∷ []))
          (after _ _ _ _
            (loop_pairs role _ D.delete_role_removes
              (("px-role", "portworx") ∷ ("px-lh-role", ns) ∷ []))
            (after _ _ _ _
              (loop_pairs role_binding _ D.delete_role_binding_removes
                (("px-role-binding", "portworx") ∷ ("px-lh-role-binding", ns) ∷ []))
              (after _ _ _ _
                (in_ns service_account _ D.delete_service_account_removes (
                  "px-account" ∷ "px-lh-account" ∷ "stork-account" ∷ "stork-scheduler-account"
                  ∷ "portworx-pvc-controller-account" ∷ "px-csi-account" ∷ []))
                (after _ _ _ _
                  (in_ns service _ D.delete_service_removes (
                    "portworx-service" ∷ "portworx-api" ∷ "stork-service" ∷ "px-lighthouse"
                    ∷ "px-csi-service" ∷ []))
                  (after _ _ _ _
                    (in_ns stateful_set _ D.delete_stateful_set_removes ("px-csi-ext" ∷ []))
                    (after _ _ _ _
                      (in_ns secret _ D.delete_secret_removes ("px-osb" ∷ "px-essential" ∷ []))
                      (in_ns config_map _ D.delete_config_map_removes (
                        "px-pure-cloud-drive"
                        ∷ "px-lighthouse-config"
                        ∷ "stork-config"
                        ∷ "px-attach-driveset-lock"
                        ∷ cluster_config_maps (stripped_cluster_name cluster))))))))))
    where
      after :
          (os ps : List Object) (m k : Action W (Unit {0}))
          → DeletesAll has os m
          → DeletesAll has ps k
          → DeletesAll has (os ++ ps) (m >> k)
      after = DeletesAll-then has

      in_ns :
          (kind : ObjectKind) (m : String → String → Action W (Unit {0}))
          → ((name ns : String)
              → Removes has (object kind ns name) (same_object (object kind ns name)) (m name ns))
          → (names : List String)
          → DeletesAll has
              (map (object kind ns) names)
              (for_each names λ name. ignore_not_found (m name ns))
      in_ns kind m law = loop (object kind ns) (λ name. m name ns) λ name. law name ns

  pub for_each-delete_namespace_components :
      (cluster : String) (namespaces : List String)
      → DeletesAll has
          (objects_of_namespaces cluster namespaces)
          (for_each namespaces (delete_namespace_components ops (stripped_cluster_name cluster)))
  unfolding for_each objects_of_namespaces
  for_each-delete_namespace_components cluster [] = no_objects-DeletesAll has
  for_each-delete_namespace_components cluster (ns ∷ rest) =
      DeletesAll-then has (namespace_objects cluster ns) (objects_of_namespaces cluster rest) _ _
        (delete_namespace_components-DeletesAll cluster ns)
        (for_each-delete_namespace_components cluster rest)
