-- ===== src/Tests/Deleted.antt =====
-- Deletions in a small cluster, and what they leave.
use talisman.Common.{
  String, ◌==◌, ◌≡◌, refl, true, false, ◌&&◌, inl, inr, some, [], ◌∷◌, map, arith, Bool-cases,
  if◌then◌else◌,
}
use mathlib.Core.Path.{subst}
use talisman.Go.Results.{timed_out, ok, gather}
use talisman.Go.Retry.{bounded_retrier}
use talisman.Kube.Presence.{
  ObjectKind, daemon_set, deployment, stateful_set, cluster_role, cluster_role_binding, role,
  role_binding, service_account, service, secret, config_map, storage_class, webhook,
  namespace_object, Object, object, global, same_object, contains_object, Removed, Removes,
}
use talisman.Px.Ops.{PxClusterOps}
use talisman.Px.Delete.{delete_all_px_components}
use talisman.Px.Wiper.{create_and_validate}
use talisman.Px.Wiper.Cleaned.{create_and_validate-Removed}
use talisman.Px.Delete.Laws.{
  daemon_set_object, namespace_reach, ListsDaemonSets, ListsConfigMaps, IsDeleter, is_px_component,
  in_reach,
}
use talisman.Px.Delete.Rules.{Deleted}
use talisman.Px.Delete.Complete.{delete_all_px_components-Deleted}
use talisman.Tests.Deletion.{
  px, universe, World, has, everything, labelled, same_object-eq, delete-Removes, px_daemonset,
  list_daemon_sets, list_config_map, deleter, global_deleter, ops,
}

list_daemon_sets-ListsDaemonSets :
    (ns : String) (w : World) → ListsDaemonSets has labelled ns w (list_daemon_sets ns w)
unfolding same_object
list_daemon_sets-ListsDaemonSets ns w = (λ o. refl, λ o. listed o)
  where
    listed :
        (o : Object)
        → contains_object
            (map daemon_set_object
              (if has w px && "kube-system" == ns then px_daemonset ∷ [] else []))
            o
          ≡ (labelled o && o.namespace == ns && has w o)
    listed o = elim (Bool-cases (same_object px o)) [
      | inl hit ↦
          subst
            (λ y.
              contains_object
                (map daemon_set_object
                  (if has w px && "kube-system" == ns then px_daemonset ∷ [] else []))
                y
              ≡ (labelled y && y.namespace == ns && has w y))
            (same_object-eq px o hit) (ground arith)
      | inr miss ↦ ground (arith, miss)
    ]

list_config_map-ListsConfigMaps :
    (ns : String) (w : World) → ListsConfigMaps has true ns w (list_config_map ns w)
unfolding same_object
list_config_map-ListsConfigMaps ns w = (λ o. refl, λ o here present. ground (arith, here, present))

ops-IsDeleter : IsDeleter has labelled true ops
ops-IsDeleter = record {
  list_daemon_sets_lists = list_daemon_sets-ListsDaemonSets;
  list_config_map_lists = list_config_map-ListsConfigMaps;
  delete_daemon_set_removes = in_namespace daemon_set;
  delete_deployment_removes = in_namespace deployment;
  delete_stateful_set_removes = in_namespace stateful_set;
  delete_cluster_role_removes = globally cluster_role;
  delete_cluster_role_binding_removes = globally cluster_role_binding;
  delete_role_removes = in_namespace role;
  delete_role_binding_removes = in_namespace role_binding;
  delete_service_account_removes = in_namespace service_account;
  delete_service_removes = in_namespace service;
  delete_secret_removes = in_namespace secret;
  delete_config_map_removes = in_namespace config_map;
  delete_storage_class_removes = globally storage_class;
  delete_webhook_removes = globally webhook;
  delete_namespace_removes = λ name.
      delete-Removes (global namespace_object name) (namespace_reach name) λ o h. ground (arith, h);
}
  where
    in_namespace :
        (kind : ObjectKind) (name ns : String)
        → let x = object kind ns name in Removes has x (same_object x) (deleter kind name ns)
    in_namespace kind name ns =
        let x = object kind ns name in delete-Removes x (same_object x) λ o h. h

    globally :
        (kind : ObjectKind) (name : String)
        → let x = global kind name in Removes has x (same_object x) (global_deleter kind name)
    globally kind name = let x = global kind name in delete-Removes x (same_object x) λ o h. h

-- The run succeeds, and the two objects of others in "kube-system" are left.
run_left :
    map (has (delete_all_px_components ops "c1" everything).1) universe
    ≡ (false ∷ false ∷ true ∷ false ∷ false ∷ true ∷ false ∷ false ∷ [])
unfolding delete_all_px_components same_object gather
run_left = refl

-- A client whose list of config maps is empty and comes with an error: the deletion succeeds, and
-- the config map of the bring-up queue is left.
abbrev failing_list : PxClusterOps World
failing_list = record ops {
  core_ops = record (ops.core_ops) { list_config_map = λ _ w. ((some [], some timed_out), w) };
}

run_with_failing_list :
    let run = delete_all_px_components failing_list "c1" everything in
    (run.0 ≡ ok tt) × (has run.1 (object config_map "kube-system" "px-bringup-queue-lock-1") ≡ true)
unfolding delete_all_px_components same_object gather
run_with_failing_list = (refl, refl)

delete_all_px_components-Deleted_example :
    Deleted has
      (is_px_component labelled true ("kube-system" ∷ []) "c1")
      (in_reach labelled ("kube-system" ∷ []) "c1")
      everything
      (delete_all_px_components ops "c1" everything)
delete_all_px_components-Deleted_example =
    delete_all_px_components-Deleted has labelled ops ops-IsDeleter "c1" everything

-- A client whose creation gives the daemon set of Portworx; its validation fails.
abbrev creating_ops : PxClusterOps World
creating_ops = record ops {
  k8s_apps = record (ops.k8s_apps) { create_daemon_set = λ _ w. ((ok tt, some px_daemonset), w) };
}

create_and_validate-Removed_example :
    Removed has px
      (same_object px)
      everything
      (ok tt, (create_and_validate (bounded_retrier 3) creating_ops px_daemonset 60 everything).1)
unfolding same_object
create_and_validate-Removed_example =
    create_and_validate-Removed has (bounded_retrier 3) creating_ops
      (λ made.
        let x = object daemon_set made.namespace made.name in
        delete-Removes x (same_object x) λ o h. h)
      px_daemonset px_daemonset 60 everything everything refl refl
