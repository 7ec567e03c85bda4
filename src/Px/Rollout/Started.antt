-- ===== src/Px/Rollout/Started.antt =====
-- What is in the cluster once `upgradePX` has started the upgrade of the daemon sets.
use talisman.Common.{
  ℕ, String, ◌==◌, ◌≡◌, refl, sym, ◌∙◌, ap, false, Option, List, [], ◌∷◌, ◌++◌, All, eq_iff, arith,
}
use mathlib.Core.Path.{subst}
use talisman.Go.Results.{Result, ok, err, panic, continue_with, pure, gather}
use talisman.Go.Retry.{
  Attempt, done, again, give_up, crashed, Retrier, IsRetry, Keeps, Attempts-inv,
}
use talisman.Kube.Objects.{Container, DaemonSet}
use talisman.Px.Names.{px_label_selector}
use talisman.Px.Ops.{PxClusterOps}
use talisman.Px.Daemonsets.{get_px_daemonsets}
use talisman.Px.Rollout.Plan.{plan, plan-Sound}
use talisman.Px.Rollout.Trigger.{
  Progress, nothing_started, after_step, update_all, update_listed, trigger_task,
}
use talisman.Px.Rollout.Sending.{
  has_uid, is_nil, AreDistinct, InStore, Lists, IsDaemonStore, Started, AfterOne, AfterAll,
  carry_out-AfterOne,
}

append-nil : {A : Type 0} (xs : List A) → (xs ++ []) ≡ xs
append-nil [] = refl
append-nil (x ∷ xs) = ap (λ ys. x ∷ ys) (append-nil xs)

module _ {W : Type 0} (stored : W → String → Option (List Container)) (image : String)
    (ops : PxClusterOps W) (ns : String) (S : IsDaemonStore stored ops ns) where
  All-kept :
      (dss : List DaemonSet) (u : String) (w w' : W)
      → has_uid u dss ≡ false
      → ((v : String) → (u == v) ≡ false → stored w' v ≡ stored w v)
      → All (InStore stored w) dss
      → All (InStore stored w') dss
  All-kept [] u w w' apart frame h = tt
  All-kept (ds ∷ dss) u w w' apart frame h = (
    frame ds.uid (ground (arith, apart, eq_iff u ds.uid, eq_iff ds.uid u)) ∙ h.0,
    All-kept dss u w w' (ground (arith, apart)) frame h.1,
  )

  update_all-AfterAll :
      (dss : List DaemonSet) (w : W) (p : Progress)
      → AreDistinct dss
      → All (InStore stored w) dss
      → AfterAll stored image dss w p (update_all ops image dss (w, p))
  unfolding update_all
  update_all-AfterAll [] w p distinct there = (tt, refl, λ u _. (refl, refl))
  update_all-AfterAll (ds ∷ dss) w p distinct there = first (update_all-AfterAll dss) _ (
      carry_out-AfterOne stored image ops ns S ds (plan image ds.pod.containers) w p there.0
        (plan-Sound image ds.pod.containers))
    where
      both :
          (w₁ : W) (p₁ : Progress)
          → AfterOne stored image ds w p (done, (w₁, p₁))
          → (o : Attempt × (W × Progress)) → AfterAll stored image dss w₁ p₁ o
          → AfterAll stored image (ds ∷ dss) w p o
      both w₁ p₁ (one, same, frame) (done, (w₂, p₂)) (all, same', frame') = (
        (
          λ px. (
            ((one px).0.0, (frame' ds.uid distinct.0).0 ∙ (one px).0.1, (one px).0.2),
            (frame' ds.uid distinct.0).1 ∙ (one px).1,
          ),
          all,
        ),
        same' ∙ same,
        λ u apart.
            let (s, l) = frame u (ground (arith, apart)) in
            let (s', l') = frame' u (ground (arith, apart)) in (s' ∙ s, l' ∙ l),
      )
      both w₁ p₁ h (again _, _) h' = tt
      both w₁ p₁ h (give_up _, _) h' = tt
      both w₁ p₁ h (crashed _, _) h' = tt

      first :
          ((w₁ : W) (p₁ : Progress)
            → AreDistinct dss
            → All (InStore stored w₁) dss
            → AfterAll stored image dss w₁ p₁ (update_all ops image dss (w₁, p₁)))
          → (o : Attempt × (W × Progress)) → AfterOne stored image ds w p o
          → AfterAll stored image (ds ∷ dss) w p (after_step (update_all ops image dss) o.0 o.1)
      first rest (done, (w₁, p₁)) h = both w₁ p₁ h _ (
          rest w₁ p₁ distinct.1
            (All-kept dss ds.uid w w₁ distinct.0 (λ v other. (h.2 v other).0) there.1))
      first rest (again _, _) h = tt
      first rest (give_up _, _) h = tt
      first rest (crashed _, _) h = tt

  -- What holds of the cluster when the task that starts the upgrade has succeeded.
  abbrev pub AllStarted : Result (Unit {0}) → W × Progress → Type 0
  AllStarted (ok _) (w, p) = (is_nil p.dss ≡ false) × All (Started stored image w p) p.dss
  AllStarted (err _) s = Unit
  AllStarted (panic _) s = Unit

  finished-Keeps :
      (dss : List DaemonSet) (w : W) (p : Progress)
      → is_nil p.dss ≡ false
      → p.dss ≡ dss
      → (o : Attempt × (W × Progress)) → AfterAll stored image dss w p o
      → Keeps (λ _. Unit) AllStarted o
  finished-Keeps dss w p some_ds same (done, (w', p')) (all, kept, _) =
      (rw kept some_ds, subst (λ xs. All (Started stored image w' p') xs) (sym (kept ∙ same)) all)
  finished-Keeps dss w p some_ds same (again _, _) h = tt
  finished-Keeps dss w p some_ds same (give_up _, _) h = tt
  finished-Keeps dss w p some_ds same (crashed _, _) h = tt

  listed-Keeps :
      (r : Result (List DaemonSet)) (w : W) (p : Progress)
      → Lists stored (r, w)
      → Keeps (λ _. Unit) AllStarted (update_listed ops image r (w, p))
  listed-Keeps (ok []) w p h = tt
  listed-Keeps (ok (ds ∷ dss)) w p (distinct, there) =
      finished-Keeps (ds ∷ dss) w (record p { dss = ds ∷ dss }) refl refl _
        (update_all-AfterAll (ds ∷ dss) w (record p { dss = ds ∷ dss }) distinct there)
  listed-Keeps (err _) w p h = tt
  listed-Keeps (panic _) w p h = tt

  get_px_daemonsets-Lists :
      ops.installed_namespaces ≡ ns ∷ [] → (w : W) → Lists stored (get_px_daemonsets ops w)
  unfolding get_px_daemonsets gather
  get_px_daemonsets-Lists one_namespace w =
      rw one_namespace
        (go (ops.k8s_apps.list_daemon_sets ns px_label_selector w).0 _ (S.list_daemon_sets_lists w))
    where
      go :
          (r : Result (List DaemonSet)) (w' : W)
          → Lists stored (r, w')
          → Lists stored (continue_with (λ dss. pure (dss ++ [])) r w')
      go (ok dss) w' h = subst (λ xs. Lists stored (ok xs, w')) (sym (append-nil dss)) h
      go (err _) w' h = tt
      go (panic _) w' h = tt

  trigger_task-Keeps :
      ops.installed_namespaces ≡ ns ∷ []
      → (s : W × Progress) → Keeps (λ _. Unit) AllStarted (trigger_task ops image s)
  unfolding trigger_task
  trigger_task-Keeps one_namespace (w, p) =
      listed-Keeps (get_px_daemonsets ops w).0 (get_px_daemonsets ops w).1 p
        (get_px_daemonsets-Lists one_namespace w)

  -- For an installation in one namespace, whose daemon sets are listed as they are stored and
  -- whose updates store what is sent: if the loop that starts the upgrade succeeds, it has found
  -- a daemon set, and for each one that it has read last and that has a container of Portworx,
  -- the daemon set that is stored runs the new image, and the generation that is expected is the
  -- observed one if the image was that before, else the next.
  pub trigger_task-AllStarted :
      (R : Retrier)
      → IsRetry R
      → ops.installed_namespaces ≡ ns ∷ []
      → (timeout interval : ℕ) (w : W)
      → let (r, s) =
          R.retry (W × Progress) timeout interval (trigger_task ops image) (w, nothing_started) in
        AllStarted r s
  trigger_task-AllStarted R is_retry one_namespace timeout interval w =
      Attempts-inv (λ _. Unit) AllStarted (trigger_task ops image)
        (λ s _. trigger_task-Keeps one_namespace s) (λ _ _. tt)
        (is_retry (W × Progress) timeout interval (trigger_task ops image) (w, nothing_started)) tt
