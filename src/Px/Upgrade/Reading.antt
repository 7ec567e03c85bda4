-- ===== src/Px/Upgrade/Reading.antt =====
-- pkg/cluster/px/px.go: the calls that the checks of `Upgrade` make.
use talisman.Common.{
  ℕ, String, ◌==◌, starts_with, not, refl, ◌≡◌, ◌∙◌, true, false, Option, none, some, List, [], ◌∷◌,
}
use talisman.Go.Results.{Result, ok, err, panic}
use talisman.Kube.Objects.{
  Pod, PodVolume, PersistentVolumeClaim, EnvVar, EnvVarSource, secret_key_ref, other_source,
  DaemonSet,
}
use talisman.Api.{ClusterSpec}
use talisman.Openstorage.{Node, ClusterManager}
use talisman.K8sutils.Pods.{
  lacks_storage_class, is_claim_using_px, is_source_using_px, is_any_volume_using_px,
  is_pod_using_px_volume, get_pods_using_px, unmanaged_pods, is_any_px_app_pod_unmanaged,
  get_secret,
}
use talisman.Px.Ops.{PxClusterOps}
use talisman.Px.Daemonsets.{get_px_daemonsets}
use talisman.Px.Version.{parse_px_version}
use talisman.Px.Drain.{
  version_label, scan_nodes, scan_cluster, is_any_node_running_version_with_prefix,
  is_upgrade_app_drain_required,
}
use talisman.Px.Config.Args.{KvdbOptions, Outcome, scanned, stopped, args_crashed, text_of}
use talisman.Px.Config.{
  px_container, env_of, scan_container, from_optional, look_up_env, variable_name, extract_named,
  extract_env, extract_credentials, with_credentials, after_scan, parse_listed,
  parse_config_from_daemonset,
}
use talisman.Px.Upgrade.Quiet.{Quiet, pure-Quiet, then-Quiet, catch-Quiet, if-Quiet, gather-Quiet}

-- The whole state, as what is seen of it.
abbrev pub whole : {W : Type 0} → W → Unit {0} → W
whole w _ = w

abbrev pub Reads : {W A : Type 0} → (W → Result A × W) → Type 0
Reads m = Quiet whole m

module _ {W : Type 0} (ops : PxClusterOps W) where
  -- The calls that read leave the cluster as it is.
  pub record IsReader : Type 0 where
    pub get_service_reads : (name ns : String) → Reads (ops.core_ops.get_service name ns)
    pub list_daemon_sets_reads :
        (ns selector : String) → Reads (ops.k8s_apps.list_daemon_sets ns selector)
    pub validate_daemon_set_reads :
        (name ns : String) (timeout : ℕ) → Reads (ops.k8s_apps.validate_daemon_set name ns timeout)
    pub get_pods_reads : (ns : String) → Reads (ops.utils.k8s_ops.get_pods ns)
    pub is_pod_being_managed_reads :
        (p : Pod) (w : W) → (ops.utils.k8s_ops.is_pod_being_managed p w).1 ≡ w
    pub get_claim_reads :
        (name ns : String) → Reads (ops.utils.k8s_ops.get_persistent_volume_claim name ns)
    pub get_volume_reads : (name : String) → Reads (ops.utils.k8s_ops.get_persistent_volume name)
    pub get_provisioner_reads :
        (pvc : PersistentVolumeClaim)
        → Reads (ops.utils.k8s_ops.get_storage_provisioner_for_pvc pvc)
    pub get_secret_reads : (name ns : String) → Reads (ops.utils.k8s_ops.get_secret name ns)

  module _ (R : IsReader) where
    pub get_px_daemonsets-Reads : Reads (get_px_daemonsets ops)
    unfolding get_px_daemonsets
    get_px_daemonsets-Reads =
        gather-Quiet whole ops.installed_namespaces _ λ ns. R.list_daemon_sets_reads ns _

    is_claim_using_px-Reads : (name ns : String) → Reads (is_claim_using_px ops.utils name ns)
    unfolding is_claim_using_px
    is_claim_using_px-Reads name ns = then-Quiet whole _ _ (R.get_claim_reads name ns) λ pvc.
        then-Quiet whole _ _ (R.get_volume_reads pvc.volume_name) λ pv.
          if-Quiet whole pv.is_portworx_volume _ _ (pure-Quiet whole (ok true)) (
            catch-Quiet whole _ _
              (then-Quiet whole _ _ (R.get_provisioner_reads pvc) λ sc. pure-Quiet whole (ok _))
              λ e.
                if-Quiet whole (lacks_storage_class e) _ _ (pure-Quiet whole (ok false))
                  (pure-Quiet whole (err e)))

    is_any_volume_using_px-Reads :
        (ns : String) (vols : List PodVolume) → Reads (is_any_volume_using_px ops.utils ns vols)
    unfolding is_any_volume_using_px
    is_any_volume_using_px-Reads ns [] = pure-Quiet whole (ok false)
    is_any_volume_using_px-Reads ns (vol ∷ rest) =
        if-Quiet whole vol.is_portworx_volume _ _ (pure-Quiet whole (ok true)) (
          then-Quiet whole _ _ (source vol.claim_name) λ found.
            if-Quiet whole found _ _ (pure-Quiet whole (ok true))
              (is_any_volume_using_px-Reads ns rest))
      where
        source : (c : Option String) → Reads (is_source_using_px ops.utils c ns)
        source none = pure-Quiet whole (ok false)
        source (some name) = is_claim_using_px-Reads name ns

    unmanaged_pods_reads : (pods : List Pod) (w : W) → (unmanaged_pods ops.utils pods w).1 ≡ w
    unfolding unmanaged_pods
    unmanaged_pods_reads [] w = refl
    unmanaged_pods_reads (p ∷ pods) w =
        unmanaged_pods_reads pods _ ∙ R.is_pod_being_managed_reads p w

    pub is_any_px_app_pod_unmanaged-Reads : Reads (is_any_px_app_pod_unmanaged ops.utils)
    unfolding is_any_px_app_pod_unmanaged get_pods_using_px is_pod_using_px_volume
    is_any_px_app_pod_unmanaged-Reads =
        then-Quiet whole _ _
          (catch-Quiet whole _ _
            (then-Quiet whole _ _ (R.get_pods_reads "") λ pods. gather-Quiet whole pods _ λ pod.
              then-Quiet whole _ _ (is_any_volume_using_px-Reads pod.namespace pod.volumes)
                λ using_px. pure-Quiet whole (ok _))
            λ e. pure-Quiet whole (err _))
          λ pods. record { quiet = λ w _. unmanaged_pods_reads pods w }

    -- The versions of the nodes and of the configuration.
    module _ (manager : ClusterManager W) (enumerate_reads : Reads manager.enumerate) where
      scan_nodes-Reads :
          (prefix : String) (first : Node) (nodes : List Node)
          → Reads {W = W} (scan_nodes prefix first nodes)
      unfolding scan_nodes
      scan_nodes-Reads prefix first [] = pure-Quiet whole (ok false)
      scan_nodes-Reads prefix first (n ∷ rest) =
          if-Quiet whole (version_label first == "") _ _ (pure-Quiet whole (err _)) (
            if-Quiet whole (starts_with (version_label first) prefix) _ _
              (pure-Quiet whole (ok true)) (scan_nodes-Reads prefix first rest))

      pub is_upgrade_app_drain_required-Reads :
          (spec : ClusterSpec) → Reads (is_upgrade_app_drain_required spec manager)
      unfolding is_upgrade_app_drain_required is_any_node_running_version_with_prefix
      is_upgrade_app_drain_required-Reads spec =
          then-Quiet whole _ _ (then-Quiet whole _ _ enumerate_reads λ nodes. cluster nodes)
            λ dublin.
              then-Quiet whole _ _ (pure-Quiet whole (parse_px_version spec.px_tag))
                λ v. if-Quiet whole _ _ _ (pure-Quiet whole (ok _)) (pure-Quiet whole (ok _))
        where
          cluster : (nodes : List Node) → Reads {W = W} (scan_cluster "1.2" nodes)
          cluster [] = pure-Quiet whole (ok false)
          cluster (n ∷ rest) = scan_nodes-Reads "1.2" n (n ∷ rest)

    look_up_env-Reads :
        (var look4 : String) (env : List EnvVar) (ns : String)
        → Reads (look_up_env ops var look4 env ns)
    unfolding look_up_env get_secret
    look_up_env-Reads var look4 [] ns = pure-Quiet whole (ok var)
    look_up_env-Reads var look4 (v ∷ rest) ns =
        if-Quiet whole (v.name == look4) _ _
          (if-Quiet whole (not (v.value == "")) _ _ (pure-Quiet whole (ok v.value))
            (source v.value_from (look_up_env-Reads var look4 rest ns)))
          (look_up_env-Reads var look4 rest ns)
      where
        source :
            (s : Option EnvVarSource)
            → Reads (look_up_env ops var look4 rest ns)
            → Reads (from_optional ops var s ns (look_up_env ops var look4 rest ns))
        source none more = more
        source (some (secret_key_ref sel)) more =
            catch-Quiet whole _ _
              (then-Quiet whole _ _ (R.get_secret_reads sel.name ns) λ m. pure-Quiet whole (ok _))
              λ e. pure-Quiet whole (err _)
        source (some other_source) more = pure-Quiet whole (err _)

    extract_env-Reads :
        (var : String) (env : List EnvVar) (ns : String) → Reads (extract_env ops var env ns)
    unfolding extract_env
    extract_env-Reads var env ns = go (variable_name var)
      where
        go : (o : Option String) → Reads (extract_named ops var o env ns)
        go none = pure-Quiet whole (ok var)
        go (some look4) = look_up_env-Reads var look4 env ns

    extract_credentials-Reads :
        (opts : KvdbOptions) (env : List EnvVar) (ns : String)
        → Reads (extract_credentials ops opts env ns)
    unfolding extract_credentials
    extract_credentials-Reads opts env ns =
        if-Quiet whole _ _ _
          (then-Quiet whole _ _ (extract_env-Reads (text_of opts.username) env ns) λ u.
            then-Quiet whole _ _ (extract_env-Reads (text_of opts.password) env ns)
              λ p. pure-Quiet whole (ok _))
          (pure-Quiet whole (ok opts))

    pub parse_config_from_daemonset-Reads :
        (read_all : String → Result (List (List String)))
        → Reads (parse_config_from_daemonset ops read_all)
    unfolding parse_config_from_daemonset
    parse_config_from_daemonset-Reads read_all = record {
      quiet = λ w _.
          go w (get_px_daemonsets ops w).0 (get_px_daemonsets ops w).1
            (get_px_daemonsets-Reads.quiet w tt);
    }
      where
        scan :
            (ds : DaemonSet) (env : List EnvVar) (o : Outcome) (w : W)
            → (after_scan ops ds env o w).1 ≡ w
        scan ds env (scanned s) w =
            credentials (extract_credentials ops s.opts env ds.namespace w).0
              (extract_credentials ops s.opts env ds.namespace w).1
              ((extract_credentials-Reads s.opts env ds.namespace).quiet w tt)
          where
            credentials :
                (r : Result KvdbOptions) (w' : W) → w' ≡ w → (with_credentials ops ds s r w').1 ≡ w
            credentials (ok _) w' h = h
            credentials (err _) w' h = h
            credentials (panic _) w' h = h
        scan ds env (stopped _ _) w = refl
        scan ds env (args_crashed _) w = refl

        go :
            (w : W) (r : Result (List DaemonSet)) (w' : W)
            → w' ≡ w
            → (parse_listed ops read_all r w').1 ≡ w
        go w (ok []) w' h = h
        go w (ok (ds ∷ _)) w' h =
            let c = px_container ds.pod.containers in
            scan ds (env_of c) (scan_container read_all c) w' ∙ h
        go w (err _) w' h = h
        go w (panic _) w' h = h
