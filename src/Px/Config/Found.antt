-- ===== src/Px/Config/Found.antt =====
-- pkg/cluster/px/px.go: the configuration that `parseConfigFromDaemonset` returns.
use talisman.Common.{String, ◌==◌, ◌≡◌, inl, inr, false, none, List, [], ◌∷◌, arith, Bool-cases}
use talisman.Go.Results.{Result, ok, err, panic}
use talisman.Kube.Objects.{EnvVar, DaemonSet}
use talisman.Px.Ops.{PxClusterOps, is_empty}
use talisman.Px.Daemonsets.{get_px_daemonsets}
use talisman.Px.Config.Args.{KvdbOptions, ArgState, Outcome, scanned, stopped, args_crashed}
use talisman.Px.Config.{
  Parsed, env_of, px_container, scan_container, conclude, extract_credentials, with_credentials,
  after_scan, parse_listed, parse_config_from_daemonset,
}

-- Without an error there is an endpoint, and the cluster has a name.
abbrev pub IsUsable : Parsed → Type 0
IsUsable p = p.error ≡ none → (is_empty p.endpoints ≡ false) × ((p.cluster_name == "") ≡ false)

abbrev pub Usable : {W : Type 0} → Result Parsed × W → Type 0
Usable (ok p, w) = IsUsable p
Usable (err _, w) = Unit
Usable (panic _, w) = Unit

conclude-IsUsable :
    (ds : DaemonSet) (s : ArgState) (opts : KvdbOptions) → IsUsable (conclude ds s opts)
unfolding conclude
conclude-IsUsable ds s opts = elim (Bool-cases s.using_internal_etcd) [
  | inl internal ↦ rw internal λ e. absurd (ground (arith, e))
  | inr external ↦ rw external (elim (Bool-cases (is_empty s.endpoints)) [
    | inl missing ↦ rw missing λ e. absurd (ground (arith, e))
    | inr there ↦ rw there (elim (Bool-cases (s.cluster_name == "")) [
      | inl unnamed ↦ rw unnamed λ e. absurd (ground (arith, e))
      | inr named ↦ rw named λ e. (there, named)
    ])
  ])
]

module _ {W : Type 0} (ops : PxClusterOps W) (read_all : String → Result (List (List String))) where
  after_scan-Usable :
      (ds : DaemonSet) (env : List EnvVar) (o : Outcome) (w : W)
      → Usable (after_scan ops ds env o w)
  after_scan-Usable ds env (scanned s) w =
      go (extract_credentials ops s.opts env ds.namespace w).0
        (extract_credentials ops s.opts env ds.namespace w).1
    where
      go : (r : Result KvdbOptions) (w' : W) → Usable (with_credentials ops ds s r w')
      go (ok opts) w' = conclude-IsUsable ds s opts
      go (err e) w' = λ h. absurd (ground (arith, h))
      go (panic p) w' = tt
  after_scan-Usable ds env (stopped name e) w = λ h. absurd (ground (arith, h))
  after_scan-Usable ds env (args_crashed p) w = tt

  -- If `parse_config_from_daemonset` returns without an error, then it has found at least one
  -- endpoint of kvdb and a name of the cluster that is not empty.
  pub parse_config_from_daemonset-Usable :
      (w : W) → Usable (parse_config_from_daemonset ops read_all w)
  unfolding parse_config_from_daemonset
  parse_config_from_daemonset-Usable w = go (get_px_daemonsets ops w).0 (get_px_daemonsets ops w).1
    where
      go : (r : Result (List DaemonSet)) (w' : W) → Usable (parse_listed ops read_all r w')
      go (ok []) w' = λ h. absurd (ground (arith, h))
      go (ok (ds ∷ _)) w' =
          after_scan-Usable ds (env_of (px_container ds.pod.containers))
            (scan_container read_all (px_container ds.pod.containers)) w'
      go (err e) w' = λ h. absurd (ground (arith, h))
      go (panic p) w' = tt
