-- ===== src/Px/Delete/Loops.antt =====
-- pkg/cluster/px/px.go: what the loops over listed objects delete.
use talisman.Common.{
  String, ◌≡◌, ◌∙◌, Bool, true, ◌&&◌, ◌||◌, Option, none, some, List, ◌∷◌, ◌++◌, map, arith,
}
use talisman.Go.Results.{
  Error, Result, ok, err, panic, Action, continue_with, ◌>>=◌, ignore_not_found, for_each,
}
use talisman.Kube.Objects.{DaemonSet}
use talisman.Kube.Presence.{config_map, Object, object, contains_object, LeavesAlone}
use talisman.Px.Names
use talisman.Px.Ops.{PxClusterOps}
use talisman.Px.Daemonsets.{get_px_daemonsets}
use talisman.Px.Delete.{
  cluster_config_maps, listed_config_maps, delete_px_daemonsets, bringup_config_maps,
  delete_bootstrap_config_maps,
}
use talisman.Px.Delete.Laws.{
  IsDeleter, daemon_set_object, ListsConfigMaps, is_px_daemonset, is_bringup_config_map,
}
use talisman.Px.Delete.Rules.{
  Deleted, Deletes, DeletesAll-one, DeletesAll-one_strict, for_each-DeletesAll-map,
}
use talisman.Px.Delete.Listed.{
  contains_object-map_append, Lists, gather-Lists, contains_object-bringup_config_maps,
  contains_object-is_config_map_of, listed-Deleted,
}

module _ {W : Type 0} {listed : Bool} (has : W → Object → Bool) (labelled : Object → Bool)
    (ops : PxClusterOps W) (D : IsDeleter has labelled listed ops) where
  pub delete_px_daemonsets-Deletes :
      Deletes has
        (is_px_daemonset labelled ops.installed_namespaces)
        (is_px_daemonset labelled ops.installed_namespaces)
        (delete_px_daemonsets ops)
  unfolding delete_px_daemonsets get_px_daemonsets
  delete_px_daemonsets-Deletes = record {
    runs = λ w. go w (get_px_daemonsets ops w).0 (get_px_daemonsets ops w).1 (
        gather-Lists has labelled (λ ns. ops.k8s_apps.list_daemon_sets ns Names.px_label_selector)
          D.list_daemon_sets_lists ops.installed_namespaces w);
  }
    where
      target : Object → Bool
      target = is_px_daemonset labelled ops.installed_namespaces

      go :
          (w : W) (r : Result (List DaemonSet)) (w' : W)
          → Lists has labelled ops.installed_namespaces w (r, w')
          → Deleted has target target w (
              continue_with
                (λ dss. for_each dss λ ds. ops.k8s_apps.delete_daemon_set ds.name ds.namespace)
                r
                w')
      go w (ok dss) w' (same, listed) =
          listed-Deleted has target target (map daemon_set_object dss) _ w w'
            (for_each-DeletesAll-map has daemon_set_object _
              (λ ds.
                DeletesAll-one_strict has _ _ (D.delete_daemon_set_removes ds.name ds.namespace))
              dss)
            same (λ o h present. ground (arith, h, present, listed o))
            (λ o h. ground (arith, h, listed o))
      go w (err _) w' same = (λ o _. same o, λ o absent. same o ∙ absent)
      go w (panic _) w' same = (λ o _. same o, λ o absent. same o ∙ absent)

  -- The lock and the config maps of the cluster, by their names.
  abbrev pub bootstrap_names : String → List String
  bootstrap_names stripped = "px-attach-driveset-lock" ∷ cluster_config_maps stripped

  abbrev pub is_bootstrap_config_map : Bool → String → Object → Bool
  is_bootstrap_config_map all stripped o =
      contains_object (map (object config_map "kube-system") (bootstrap_names stripped)) o
      || all && is_bringup_config_map o

  pub delete_bootstrap_config_maps-Deletes :
      (stripped : String)
      → Deletes has
          (is_bootstrap_config_map listed stripped)
          (is_bootstrap_config_map true stripped)
          (delete_bootstrap_config_maps ops stripped)
  unfolding delete_bootstrap_config_maps is_bringup_config_map
  delete_bootstrap_config_maps-Deletes stripped = record {
    runs = λ w.
        let listing = ops.core_ops.list_config_map "kube-system" w in
        go w listing.0.0 listing.0.1 listing.1 (D.list_config_map_lists "kube-system" w);
  }
    where
      target : Object → Bool
      target = is_bootstrap_config_map listed stripped

      reach : Object → Bool
      reach = is_bootstrap_config_map true stripped

      remove : List String → Action W (Unit {0})
      remove cms =
          for_each (bootstrap_names stripped ++ bringup_config_maps cms)
            λ cm. ignore_not_found (ops.core_ops.delete_config_map cm "kube-system")

      split :
          (o : Object) (cms : List String)
          → contains_object
              (map
                (object config_map "kube-system")
                (bootstrap_names stripped ++ bringup_config_maps cms))
              o
            ≡ (contains_object (map (object config_map "kube-system") (bootstrap_names stripped)) o
                || contains_object
                    (map (object config_map "kube-system") (bringup_config_maps cms))
                    o)
      split o cms =
          contains_object-map_append (object config_map "kube-system") (bootstrap_names stripped)
            (bringup_config_maps cms) o

      found :
          (w : W) (cms : List String) (w' : W)
          → LeavesAlone has w w'
          → ((o : Object)
              → target o ≡ true
              → has w o ≡ true
              → contains_object
                  (map
                    (object config_map "kube-system")
                    (bootstrap_names stripped ++ bringup_config_maps cms))
                  o
                ≡ true)
          → Deleted has target reach w (remove cms w')
      found w cms w' same complete =
          listed-Deleted has target reach
            (map (object config_map "kube-system")
              (bootstrap_names stripped ++ bringup_config_maps cms))
            (remove cms) w w'
            (for_each-DeletesAll-map has (object config_map "kube-system") _
              (λ cm. DeletesAll-one has _ _ (D.delete_config_map_removes cm "kube-system"))
              (bootstrap_names stripped ++ bringup_config_maps cms))
            same complete
            (λ o h. ground (
              arith,
              h,
              split o cms,
              contains_object-bringup_config_maps "kube-system" cms o,
              contains_object-is_config_map_of "kube-system" cms o,
            ))

      go :
          (w : W) (items : Option (List String)) (problem : Option Error) (w' : W)
          → ListsConfigMaps has listed "kube-system" w ((items, problem), w')
          → Deleted has target reach w ((listed_config_maps ops items >>= remove) w')
      go w none problem w' same = (λ o _. same o, λ o absent. same o ∙ absent)
      go w (some cms) (some _) w' (same, fails) =
          found w cms w' same λ o h present. ground (arith, h, fails, split o cms)
      go w (some cms) none w' (same, all) = found w cms w' same λ o h present. ground (
        arith,
        h,
        present,
        split o cms,
        all o,
        contains_object-bringup_config_maps "kube-system" cms o,
      )
