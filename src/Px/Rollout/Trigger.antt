-- ===== src/Px/Rollout/Trigger.antt =====
-- pkg/cluster/px/px.go: the task of `upgradePX` that starts the upgrade of the daemon sets.
use talisman.Common.{ℕ, ◌+◌, ◌%◌, ◌^◌, String, ◌<>◌, Option, none, some, List, [], ◌∷◌, insert}
use talisman.Go.Results.{Error, no_px_daemonset, errorf, nil_map, Result, ok, err, panic}
use talisman.Go.Retry.{Attempt, done, again, give_up, crashed, Task}
use talisman.Kube.Objects.{Labels, Container, DaemonSet}
use talisman.Px.Names.{change_cause_annotation, px_image_env_key}
use talisman.Px.Ops.{PxClusterOps}
use talisman.Px.Daemonsets.{get_px_daemonsets}
use talisman.Px.Rollout.Plan.{Plan, no_px_container, image_by_env, up_to_date, new_containers, plan}

-- The variables that the task captures: the daemon sets that it has read last, and by uid the
-- generations that are to be observed.
pub record Progress : Type 0 where
  pub dss : List DaemonSet
  pub expected_generations : List (String × ℕ)

abbrev pub nothing_started : Progress
nothing_started = record { dss = []; expected_generations = [] }

abbrev pub expect : DaemonSet → ℕ → Progress → Progress
expect ds generation p = record p {
  expected_generations = insert ds.uid generation p.expected_generations;
}

-- The generation after an update, an `int64`.
abbrev pub next_generation : DaemonSet → ℕ
next_generation ds = (ds.observed_generation + 1) % 2 ^ 64

abbrev pub annotated : String → Labels → Labels
annotated image m = insert change_cause_annotation ("update PX to " <> image) m

abbrev pub with_containers : DaemonSet → List Container → Labels → DaemonSet
with_containers ds cs m = record ds {
  pod = record ds.pod { containers = cs };
  annotations = some m;
}

abbrev pub env_is_set : String → Error
env_is_set old_px_image =
    errorf
      "%s=%s env variable is set in the PX Daemonset. This upgrade method doesn't support that. Remove the environment variable and retry. "
      (px_image_env_key ∷ old_px_image ∷ [])

-- One step of a task and then the rest, if it is done.
abbrev pub after_step : {S : Type 0} → Task S → Attempt → Task S
after_step next done s = next s
after_step next (again e) s = (again e, s)
after_step next (give_up e) s = (give_up e, s)
after_step next (crashed p) s = (crashed p, s)

abbrev pub step_then : {S : Type 0} → Task S → Task S → Task S
step_then first next s = let (a, s') = first s in after_step next a s'

module _ {W : Type 0} (ops : PxClusterOps W) (image : String) where
  abbrev pub after_update : Result DaemonSet → W → Progress → Attempt × (W × Progress)
  after_update (ok _) w p = (done, (w, p))
  after_update (err e) w p = (again e, (w, p))
  after_update (panic c) w p = (crashed c, (w, p))

  abbrev pub send : DaemonSet → Task (W × Progress)
  send ds (w, p) = let (r, w') = ops.k8s_apps.update_daemon_set ds w in after_update r w' p

  -- A write into a nil map of annotations panics.
  abbrev pub send_annotated : DaemonSet → List Container → Option Labels → Task (W × Progress)
  send_annotated ds cs none s = (crashed nil_map, s)
  send_annotated ds cs (some m) s = send (with_containers ds cs (annotated image m)) s

  -- A daemon set without a container of Portworx is sent as it is, and nothing is expected of it.
  abbrev pub carry_out : DaemonSet → Plan → Task (W × Progress)
  carry_out ds no_px_container s = send ds s
  carry_out ds (image_by_env old) s = (give_up (env_is_set old), s)
  carry_out ds up_to_date (w, p) = (done, (w, expect ds ds.observed_generation p))
  carry_out ds (new_containers cs) (w, p) =
      send_annotated ds cs ds.annotations (w, expect ds (next_generation ds) p)

  -- The loop over the daemon sets.
  unfoldable pub update_all : List DaemonSet → Task (W × Progress)
  unfolding plan
  update_all [] s = (done, s)
  update_all (ds ∷ dss) s =
      step_then (carry_out ds (plan image ds.pod.containers)) (update_all dss) s

  abbrev pub update_listed : Result (List DaemonSet) → Task (W × Progress)
  update_listed (ok []) (w, p) = (again no_px_daemonset, (w, record p { dss = [] }))
  update_listed (ok (ds ∷ dss)) (w, p) = update_all (ds ∷ dss) (w, record p { dss = ds ∷ dss })
  update_listed (err e) (w, p) = (again e, (w, record p { dss = [] }))
  update_listed (panic c) s = (crashed c, s)

  unfoldable pub trigger_task : Task (W × Progress)
  unfolding get_px_daemonsets update_all
  trigger_task (w, p) = let (r, w') = get_px_daemonsets ops w in update_listed r (w', p)
