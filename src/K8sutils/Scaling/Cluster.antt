-- ===== src/K8sutils/Scaling/Cluster.antt =====
-- `ScaleSharedAppsToZero` and `RestoreScaledAppsReplicas` on a cluster whose clients store what is
-- written and list the same shared applications each time.
use mathlib.Core.Option
use talisman.Common.{
  String, ◌≡◌, refl, ◌∙◌, ap, inl, inr, Bool, true, false, ◌||◌, Option, none, some, arith,
  Bool-cases,
}
use talisman.Go.Numbers.{ℤ}
use talisman.Go.Results.{Result, ok, err, panic}
use talisman.Go.Retry.{Retrier, IsRetry}
use talisman.Kube.Objects.{Labels, Workload}
use talisman.K8sutils.Instance.{Instance}
use talisman.K8sutils.Scaling.Change.{
  Change, scale_deployment, scale_stateful_set, IntOrString, restore_app,
}
use talisman.K8sutils.Scaling.Tasks.{scale_shared_apps_to_zero, restore_scaled_apps_replicas}
use talisman.K8sutils.Scaling.Memory.{
  ReadsCounts, IsFresh, restore_app-scale_deployment, restore_app-scale_stateful_set,
}
use talisman.K8sutils.Scaling.Store.{Key, View, Same, IsAppStore}
use talisman.K8sutils.Scaling.Listing.{
  Inventory, IsListed, shared_deployments, shared_stateful_sets,
}
use talisman.K8sutils.Scaling.Edits.{edit, edits, edits_absent, contains_key}
use talisman.K8sutils.Scaling.Both.{EditedBoth, edit_shared-EditedBoth}
use talisman.K8sutils.Scaling.ChangeLaws.{
  IsAtZero, scale_deployment-KeepsKey, scale_stateful_set-KeepsKey, restore_app-KeepsKey,
  scale_deployment-Settles, scale_stateful_set-Settles, Settles-trivial, scale_deployment_idem,
  restore_app_idem, IsDistinct, edits_idem, edits_distinct,
}

-- The application is one of those that are listed.
abbrev pub is_shared_app : Inventory → Key → Bool
is_shared_app i key =
    contains_key (shared_deployments i) key || contains_key (shared_stateful_sets i) key

module _ {W : Type 0} (view : View W) where
  -- Success gives every application back as it was before.
  abbrev pub GivesBack : W → Result (Unit {0}) × W → Type 0
  GivesBack w (ok _, w') = (key : Key) → view w' key ≡ view w key
  GivesBack w (err _, w') = Unit
  GivesBack w (panic _, w') = Unit

module _ {W : Type 0} (view : View W) (i : Inventory) where
  -- After success the shared applications that exist have no replicas, and no other is changed.
  abbrev pub ScaledDown : W → Result (Unit {0}) × W → Type 0
  ScaledDown w (ok _, w') =
      ((key : Key) (d : Workload) → is_shared_app i key ≡ true → view w' key ≡ some d → IsAtZero d)
      × ((key : Key) → is_shared_app i key ≡ false → view w' key ≡ view w key)
  ScaledDown w (err _, w') = Unit
  ScaledDown w (panic _, w') = Unit

  -- The listed applications that exist keep no count yet.
  abbrev pub AreFresh : W → Type 0
  AreFresh w =
      (key : Key) (d : Workload)
      → is_shared_app i key ≡ true
      → view w key ≡ some d
      → (m : Labels) × (r : ℤ) × IsFresh d m r

module _ {W : Type 0} (view : View W) (R : Retrier) (retries : IsRetry R) (k : Instance W)
    (i : Inventory) (store : IsAppStore view k.kube_client) (listed : IsListed view k i) where
  scale-EditedBoth :
      (w : W)
      → EditedBoth view scale_deployment scale_stateful_set IsAtZero
          (shared_deployments i)
          (shared_stateful_sets i)
          w
          (scale_shared_apps_to_zero R k w)
  unfolding scale_shared_apps_to_zero
  scale-EditedBoth =
      edit_shared-EditedBoth view R retries k i store listed scale_deployment scale_stateful_set
        scale_deployment_idem scale_deployment-KeepsKey scale_stateful_set-KeepsKey IsAtZero
        scale_deployment-Settles scale_stateful_set-Settles

  to_ScaledDown :
      (w : W) (o : Result (Unit {0}) × W)
      → EditedBoth view scale_deployment scale_stateful_set IsAtZero
          (shared_deployments i)
          (shared_stateful_sets i)
          w
          o
      → ScaledDown view i w o
  to_ScaledDown w (ok _, w') (edited, settled, _) = (
    settled,
    λ key h.
        edited key
        ∙ edits_absent scale_stateful_set key (shared_stateful_sets i) _ (ground arith)
        ∙ edits_absent scale_deployment key (shared_deployments i) _ (ground arith),
  )
  to_ScaledDown w (err _, w') _ = tt
  to_ScaledDown w (panic _, w') _ = tt

  -- Scaling down, where it succeeds, leaves every shared application that exists at 0 replicas, and
  -- every other application as it was, however often its calls were retried, also where updates of
  -- deployments were carried out although they returned an error, while none of a stateful set was.
  pub scale_shared_apps_to_zero-ScaledDown :
      (w : W) → ScaledDown view i w (scale_shared_apps_to_zero R k w)
  scale_shared_apps_to_zero-ScaledDown w =
      to_ScaledDown w (scale_shared_apps_to_zero R k w) (scale-EditedBoth w)

  module _ (parse : String → IntOrString) (reads : ReadsCounts parse) where
    restore-EditedBoth :
        (w : W)
        → EditedBoth view
            (restore_app parse)
            (restore_app parse)
            (λ _. Unit)
            (shared_deployments i)
            (shared_stateful_sets i)
            w
            (restore_scaled_apps_replicas R k parse w)
    unfolding restore_scaled_apps_replicas
    restore-EditedBoth =
        edit_shared-EditedBoth view R retries k i store listed (restore_app parse)
          (restore_app parse) (restore_app_idem parse) (restore_app-KeepsKey parse)
          (restore_app-KeepsKey parse) (λ _. Unit) (λ d. Settles-trivial d (restore_app parse d))
          (λ d. Settles-trivial d (restore_app parse d))

    restored_option :
        (change : Workload → Change) (o : Option Workload)
        → ((d : Workload) → o ≡ some d → edit (restore_app parse) (edit change d) ≡ d)
        → Option.map (edit (restore_app parse)) (Option.map (edit change) o) ≡ o
    restored_option change none h = refl
    restored_option change (some d) h = ap some (h d refl)

    -- The four loops of a scaling and a restoring, at one key.
    loops_give_back :
        (w : W) (key : Key)
        → IsDistinct (shared_stateful_sets i)
        → AreFresh view i w
        → (contains_key (shared_deployments i) key ≡ true
            → contains_key (shared_stateful_sets i) key ≡ false)
        → let ds = shared_deployments i in
          let ss = shared_stateful_sets i in
          edits (restore_app parse) key ss (
            edits
              (restore_app parse)
              key
              ds
              (edits scale_stateful_set key ss (edits scale_deployment key ds (view w key))))
          ≡ view w key
    loops_give_back w key distinct fresh apart =
        simp
          (edits_idem _ key (shared_deployments i), restore_app_idem parse, scale_deployment_idem)
          (rw
            (
              edits_distinct scale_stateful_set key (shared_stateful_sets i) _ distinct,
              edits_distinct (restore_app parse) key (shared_stateful_sets i) _ distinct,
            )
            (elim (Bool-cases (contains_key (shared_deployments i) key)) [
              | inl d ↦
                  rw (d, apart d)
                    (restored_option scale_deployment (view w key) λ c e.
                      let (m, r, f) = fresh key c (ground (arith, d)) e in
                      restore_app-scale_deployment parse reads c m r f)
              | inr no_d ↦ elim (Bool-cases (contains_key (shared_stateful_sets i) key)) [
                | inl s ↦
                    rw (no_d, s)
                      (restored_option scale_stateful_set (view w key) λ c e.
                        let (m, r, f) = fresh key c (ground (arith, no_d, s)) e in
                        restore_app-scale_stateful_set parse reads c m r f)
                | inr no_s ↦ rw (no_d, no_s)
              ]
            ]))

    give_back :
        (w w₁ w₁' : W) (o : Result (Unit {0}) × W)
        → IsDistinct (shared_stateful_sets i)
        → AreFresh view i w
        → EditedBoth view scale_deployment scale_stateful_set IsAtZero
            (shared_deployments i)
            (shared_stateful_sets i)
            w
            (ok tt, w₁)
        → EditedBoth view
            (restore_app parse)
            (restore_app parse)
            (λ _. Unit)
            (shared_deployments i)
            (shared_stateful_sets i)
            w₁'
            o
        → Same view w₁ w₁'
        → GivesBack view w o
    give_back w w₁ w₁' (ok _, w₂) distinct fresh (down, _, apart) (up, _, _) same = λ key.
        up key
        ∙ ap
            (λ (o : Option Workload).
              edits (restore_app parse) key (shared_stateful_sets i)
                (edits (restore_app parse) key (shared_deployments i) o))
            (same key ∙ down key)
        ∙ loops_give_back w key distinct fresh (apart key)
    give_back w w₁ w₁' (err _, w₂) distinct fresh down up same = tt
    give_back w w₁ w₁' (panic _, w₂) distinct fresh down up same = tt

    -- Where scaling down has succeeded, and nothing that was done since has changed an application,
    -- a restoring that succeeds gives every application of the cluster back as it was before, its
    -- annotations included. The shared applications must have had annotations, and no count kept in
    -- them, no stateful set may be listed twice, and no update of a stateful set may have been carried
    -- out although it returned an error; one of a deployment may have been.
    pub restore_scaled_apps_replicas-GivesBack :
        (w w₁ w₁' : W)
        → IsDistinct (shared_stateful_sets i)
        → AreFresh view i w
        → scale_shared_apps_to_zero R k w ≡ (ok tt, w₁)
        → Same view w₁ w₁'
        → GivesBack view w (restore_scaled_apps_replicas R k parse w₁')
    restore_scaled_apps_replicas-GivesBack w w₁ w₁' distinct fresh e same =
        give_back w w₁ w₁' (restore_scaled_apps_replicas R k parse w₁') distinct fresh
          (rw e at (scale-EditedBoth w)) (restore-EditedBoth w₁') same
