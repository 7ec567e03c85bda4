-- ===== src/Px/Upgrade/Rolling.antt =====
-- pkg/cluster/px/px.go: the applications, and the rolling upgrade of the daemon sets.
use talisman.Common.{ℕ, String, ◌<>◌, ◌∙◌, refl, List, [], ◌∷◌, true, false, Option, none, some}
use talisman.Go.Results.{Result, ok, err, panic, is_not_found}
use talisman.Go.Retry.{Attempt, done, again, give_up, crashed, Retrier, IsRetry}
use talisman.Kube.Objects.{Labels, Affinity, DaemonSet}
use talisman.Api.{ClusterSpec}
use talisman.Openstorage.{VolumeDriver}
use talisman.K8sutils.Instance.{default_retry_interval}
use talisman.K8sutils.Scaling.Store.{View, Same}
use talisman.Px.Names.{
  px_label_selector, px_service_name, daemonset_update_trigger_timeout, px_api_daemonset,
  px_api_service_name,
}
use talisman.Px.Ops.{PxClusterOps, UpgradeOptions}
use talisman.Px.ClusterRole.{px_cluster_role}
use talisman.Px.Timeouts.{get_daemon_set_ready_timeout}
use talisman.Px.Api.{
  TargetPorts, override_ports, default_target_ports, api_daemonset, check_api_daemonset,
  check_api_service,
}
use talisman.Px.Daemonsets.{get_px_daemonsets}
use talisman.Px.Rollout.Plan.{Plan, no_px_container, image_by_env, up_to_date, new_containers, plan}
use talisman.Px.Rollout.Trigger.{
  Progress, nothing_started, after_step, after_update, send, send_annotated, with_containers,
  annotated, expect, next_generation, carry_out, update_all, update_listed, trigger_task,
}
use talisman.Px.Rollout.Wait.{generation_task}
use talisman.Px.Rollout.{options_of, finish_daemonset, after_trigger, roll_out, upgrade_px}
use talisman.Px.Upgrade.Quiet.{
  Quiet, pure-Quiet, then-Quiet, catch-Quiet, if-Quiet, for_each-Quiet, gather-Quiet, QuietTask,
  call-QuietTask, retry-Same, retry-Quiet,
}
use talisman.Px.Upgrade.Calls.{LeavesApps, permissions-Quiet}

module _ {W : Type 0} (view : View W) (ops : PxClusterOps W) (driver : VolumeDriver W)
    (L : LeavesApps view ops driver) where
  -- The state of the cluster in the state of the task that starts the upgrade.
  abbrev world : W × Progress → W
  world s = s.0

  module _ (image : String) where
    send-Same : (ds : DaemonSet) (w : W) (p : Progress) → Same view w (send ops image ds (w, p)).1.0
    send-Same ds w p =
        go (ops.k8s_apps.update_daemon_set ds w).0 (ops.k8s_apps.update_daemon_set ds w).1
          ((L.update_daemon_set_quiet ds).quiet w)
      where
        go :
            (r : Result DaemonSet) (w' : W)
            → Same view w w'
            → Same view w (after_update ops image r w' p).1.0
        go (ok _) w' h = h
        go (err _) w' h = h
        go (panic _) w' h = h

    carry_out-Same :
        (ds : DaemonSet) (q : Plan) (w : W) (p : Progress)
        → Same view w (carry_out ops image ds q (w, p)).1.0
    carry_out-Same ds no_px_container w p = send-Same ds w p
    carry_out-Same ds (image_by_env old) w p = λ key. refl
    carry_out-Same ds up_to_date w p = λ key. refl
    carry_out-Same ds (new_containers cs) w p = go ds.annotations
      where
        go :
            (m : Option Labels)
            → Same view w
                (send_annotated ops image ds cs m (w, expect ds (next_generation ds) p)).1.0
        go none = λ key. refl
        go (some m) =
            send-Same (with_containers ds cs (annotated image m)) w
              (expect ds (next_generation ds) p)

    update_all-Same :
        (dss : List DaemonSet) (w : W) (p : Progress)
        → Same view w (update_all ops image dss (w, p)).1.0
    unfolding update_all
    update_all-Same [] w p = λ key. refl
    update_all-Same (ds ∷ dss) w p =
        go (update_all-Same dss) _ (carry_out-Same ds (plan image ds.pod.containers) w p)
      where
        go :
            ((w' : W) (p' : Progress) → Same view w' (update_all ops image dss (w', p')).1.0)
            → (o : Attempt × (W × Progress)) → Same view w o.1.0
            → Same view w (after_step (update_all ops image dss) o.0 o.1).1.0
        go rest (done, (w', p')) h = λ key. rest w' p' key ∙ h key
        go rest (again _, _) h = h
        go rest (give_up _, _) h = h
        go rest (crashed _, _) h = h

    trigger_task-QuietTask : QuietTask view world (trigger_task ops image)
    unfolding trigger_task get_px_daemonsets
    trigger_task-QuietTask = record {
      quiet = λ (w, p). go w p (get_px_daemonsets ops w).0 (get_px_daemonsets ops w).1 (
          (gather-Quiet view ops.installed_namespaces _
              λ ns. L.list_daemon_sets_quiet ns px_label_selector).quiet
            w);
    }
      where
        go :
            (w : W) (p : Progress) (r : Result (List DaemonSet)) (w' : W)
            → Same view w w'
            → Same view w (update_listed ops image r (w', p)).1.0
        go w p (ok []) w' h = h
        go w p (ok (ds ∷ dss)) w' h =
            λ key. update_all-Same (ds ∷ dss) w' (record p { dss = ds ∷ dss }) key ∙ h key
        go w p (err _) w' h = h
        go w p (panic _) w' h = h

  check_api_daemonset-Quiet :
      (ns : String) (affinity : Affinity) → Quiet view (check_api_daemonset ops ns affinity)
  unfolding check_api_daemonset
  check_api_daemonset-Quiet ns affinity =
      catch-Quiet view _ _
        (then-Quiet view _ _ (L.get_daemon_set_quiet px_api_daemonset ns)
          λ _. pure-Quiet view (ok tt))
        λ e.
          if-Quiet view (is_not_found e) _ _
            (record { quiet = L.create_daemon_set_same (api_daemonset ns affinity) })
            (pure-Quiet view (err e))

  check_api_service-Quiet :
      (ns : String) (ports : TargetPorts) → Quiet view (check_api_service ops ns ports)
  unfolding check_api_service
  check_api_service-Quiet ns ports =
      then-Quiet view _ _
        (catch-Quiet view _ _
          (then-Quiet view _ _ (L.get_service_quiet px_api_service_name ns)
            λ _. pure-Quiet view (ok true))
          λ e.
            if-Quiet view (is_not_found e) _ _ (pure-Quiet view (ok false))
              (pure-Quiet view (err e)))
        λ is_there.
          if-Quiet view is_there _ _ (L.patch_service_quiet _ _ _) (L.create_service_quiet _)

  module _ (R : Retrier) (is_retry : IsRetry R) where
    finish_daemonset-Quiet :
        (opts : Option UpgradeOptions) (expected : List (String × ℕ)) (ds : DaemonSet)
        → Quiet view (finish_daemonset R ops opts expected ds)
    unfolding finish_daemonset generation_task get_daemon_set_ready_timeout
    finish_daemonset-Quiet opts expected ds =
        then-Quiet view _ _
          (retry-Quiet view R is_retry _ _ (generation_task ops expected ds) (
            call-QuietTask view _ _ _ (L.get_daemon_set_quiet ds.name ds.namespace)
              λ updated. record { quiet = λ w key. refl }))
          λ _. then-Quiet view _ _ (options opts) λ o.
            then-Quiet view _ _
              (then-Quiet view _ _ L.get_nodes_quiet λ nodes. pure-Quiet view (ok _))
              λ timeout.
                then-Quiet view _ _ (L.validate_daemon_set_quiet ds.name ds.namespace timeout) λ _.
                  then-Quiet view _ _ (L.get_service_quiet px_service_name ds.namespace) λ svc.
                    then-Quiet view _ _ (L.patch_service_quiet _ _ _) λ _.
                      then-Quiet view _ _ (check_api_daemonset-Quiet ds.namespace ds.pod.affinity)
                        λ _.
                          check_api_service-Quiet ds.namespace
                            (override_ports svc.ports default_target_ports)
      where
        options : (o : Option UpgradeOptions) → Quiet view (options_of o)
        options none = record { quiet = λ w key. refl }
        options (some o) = record { quiet = λ w key. refl }

    roll_out-Quiet :
        (image : String) (opts : Option UpgradeOptions) → Quiet view (roll_out R ops image opts)
    unfolding roll_out
    roll_out-Quiet image opts = record {
      quiet = λ w.
          go w
            (R.retry (W × Progress) daemonset_update_trigger_timeout default_retry_interval
              (trigger_task ops image) (w, nothing_started))
            (retry-Same view R is_retry world daemonset_update_trigger_timeout
              default_retry_interval (trigger_task ops image) (trigger_task-QuietTask image)
              (w, nothing_started));
    }
      where
        go :
            (w : W) (o : Result (Unit {0}) × (W × Progress))
            → Same view w o.1.0
            → Same view w (after_trigger R ops opts o.0 o.1).1
        go w (ok _, (w', p)) h = λ key.
            (for_each-Quiet view p.dss _
                λ ds. finish_daemonset-Quiet opts p.expected_generations ds).quiet
              w' key
            ∙ h key
        go w (err _, _) h = h
        go w (panic _, _) h = h

    pub upgrade_px-Quiet :
        (spec : ClusterSpec) (opts : Option UpgradeOptions)
        → Quiet view (upgrade_px R ops spec opts)
    unfolding upgrade_px
    upgrade_px-Quiet spec opts =
        then-Quiet view _ _ (L.update_cluster_role_quiet px_cluster_role) λ _.
          then-Quiet view _ _ (permissions-Quiet view ops driver L R is_retry)
            λ _. roll_out-Quiet (spec.oci_mon_image <> (":" <> spec.oci_mon_tag)) opts
