-- ===== src/Px/Delete/Complete.antt =====
-- pkg/cluster/px/px.go: what `deleteAllPXComponents` leaves, and what it may remove.
use talisman.Common.{String, Bool, arith}
use talisman.Kube.Presence.{Object}
use talisman.Px.Ops.{PxClusterOps}
use talisman.Px.Delete.{stripped_cluster_name, delete_all_px_components}
use talisman.Px.Delete.Laws.{IsDeleter, cluster_objects, named_objects, is_px_component, in_reach}
use talisman.Px.Delete.Rules.{Deleted, Deletes, Deletes-then, Deletes-weaken}
use talisman.Px.Delete.Parts.{
  delete_cluster_roles-DeletesAll, delete_cluster_role_bindings-DeletesAll,
  delete_cluster_wide-Deletes, for_each-delete_namespace_components,
}
use talisman.Px.Delete.Loops.{delete_px_daemonsets-Deletes, delete_bootstrap_config_maps-Deletes}

module _ {W : Type 0} {listed : Bool} (has : W → Object → Bool) (labelled : Object → Bool)
    (ops : PxClusterOps W) (D : IsDeleter has labelled listed ops) where
  all-Deletes :
      (cluster : String)
      → Deletes has
          (is_px_component labelled listed ops.installed_namespaces cluster)
          (in_reach labelled ops.installed_namespaces cluster)
          (delete_all_px_components ops cluster)
  unfolding delete_all_px_components cluster_objects named_objects
  all-Deletes cluster =
      Deletes-weaken has _ _ _ _ _ (λ o h. ground (arith, h)) (λ o h. ground (arith, h))
        (Deletes-then has _ _ _ _ _ _ (delete_px_daemonsets-Deletes has labelled ops D) (
          Deletes-then has _ _ _ _ _ _ (delete_cluster_roles-DeletesAll has labelled ops D).deletes
            (Deletes-then has _ _ _ _ _ _
              (delete_cluster_role_bindings-DeletesAll has labelled ops D).deletes
              (Deletes-then has _ _ _ _ _ _ (delete_cluster_wide-Deletes has labelled ops D cluster)
                (Deletes-then has _ _ _ _ _ _
                  (delete_bootstrap_config_maps-Deletes has labelled ops D
                    (stripped_cluster_name cluster))
                  (for_each-delete_namespace_components has labelled ops D cluster
                    ops.installed_namespaces).deletes)))))

  -- Where the clients delete and list as `IsDeleter` says, `delete_all_px_components` leaves, after
  -- success, no component of the installation; the config maps of the bring-up queue count only if
  -- `listed`, which says that no list of config maps is returned together with an error, since the
  -- code does not look at that error. On every path, errors and panics included, it removes nothing
  -- but components, with or without the bring-up queue's, and what is in the namespace "portworx",
  -- and nothing appears.
  pub delete_all_px_components-Deleted :
      (cluster : String) (w : W)
      → Deleted has
          (is_px_component labelled listed ops.installed_namespaces cluster)
          (in_reach labelled ops.installed_namespaces cluster)
          w
          (delete_all_px_components ops cluster w)
  delete_all_px_components-Deleted cluster w = (all-Deletes cluster).runs w
