-- ===== src/Px/Rollout/Sending.antt =====
-- What is in the cluster once `upgradePX` has started the upgrade of one daemon set.
use talisman.Common.{
  ℕ, String, ◌==◌, ◌≡◌, refl, ◌∙◌, Bool, true, false, ◌||◌, Option, none, some, List, [], ◌∷◌,
  lookup, lookup-insert, All, eq_refl, arith, if◌then◌else◌,
}
use talisman.Go.Results.{Result, ok, err, panic}
use talisman.Go.Retry.{Attempt, done, again, give_up, crashed}
use talisman.Kube.Objects.{Labels, Container, DaemonSet}
use talisman.Px.Names.{px_label_selector}
use talisman.Px.Ops.{PxClusterOps}
use talisman.Px.Rollout.Plan.{
  Plan, no_px_container, image_by_env, up_to_date, new_containers, runs_image, has_px_container,
  Sound,
}
use talisman.Px.Rollout.Trigger.{
  Progress, expect, next_generation, annotated, with_containers, after_update, send, send_annotated,
  carry_out,
}

abbrev pub has_uid : String → List DaemonSet → Bool
has_uid u [] = false
has_uid u (ds ∷ dss) = ds.uid == u || has_uid u dss

abbrev pub is_nil : List DaemonSet → Bool
is_nil [] = true
is_nil (_ ∷ _) = false

-- No two have the same uid.
abbrev pub AreDistinct : List DaemonSet → Type 0
AreDistinct [] = Unit
AreDistinct (ds ∷ dss) = (has_uid ds.uid dss ≡ false) × AreDistinct dss

module _ {W : Type 0} (stored : W → String → Option (List Container)) where
  abbrev pub InStore : W → DaemonSet → Type 0
  InStore w ds = stored w ds.uid ≡ some ds.pod.containers

  -- The daemon sets that are listed are those that are stored, each once.
  abbrev pub Lists : Result (List DaemonSet) × W → Type 0
  Lists (ok dss, w) = AreDistinct dss × All (InStore w) dss
  Lists (err _, w) = Unit
  Lists (panic _, w) = Unit

  -- An update that succeeds stores the daemon set and leaves the others.
  abbrev pub Stores : DaemonSet → W → Result DaemonSet × W → Type 0
  Stores ds w (ok _, w') =
      (u : String) → stored w' u ≡ (if ds.uid == u then some ds.pod.containers else stored w u)
  Stores ds w (err _, w') = Unit
  Stores ds w (panic _, w') = Unit

  pub record IsDaemonStore (ops : PxClusterOps W) (ns : String) : Type 0 where
    pub list_daemon_sets_lists :
        (w : W) → Lists (ops.k8s_apps.list_daemon_sets ns px_label_selector w)
    pub update_daemon_set_stores :
        (ds : DaemonSet) (w : W) → Stores ds w (ops.k8s_apps.update_daemon_set ds w)

  module _ (image : String) where
    abbrev pub Runs : Option (List Container) → Type 0
    Runs o = (cs : List Container) × (o ≡ some cs) × (runs_image image cs ≡ true)

    abbrev pub generation_to_come : DaemonSet → ℕ
    generation_to_come ds =
        if runs_image image ds.pod.containers then ds.observed_generation else next_generation ds

    -- The cluster has the daemon set with the image, and the generation to come is known.
    abbrev pub Started : W → Progress → DaemonSet → Type 0
    Started w p ds =
        has_px_container ds.pod.containers ≡ true
        → Runs (stored w ds.uid)
          × (lookup ds.uid p.expected_generations ≡ some (generation_to_come ds))

    -- What is known of a uid stays.
    abbrev pub SameAt : String → W → Progress → W → Progress → Type 0
    SameAt u w p w' p' =
        (stored w' u ≡ stored w u)
        × (lookup u p'.expected_generations ≡ lookup u p.expected_generations)

    abbrev pub AfterOne : DaemonSet → W → Progress → Attempt × (W × Progress) → Type 0
    AfterOne ds w p (done, (w', p')) =
        Started w' p' ds
        × (p'.dss ≡ p.dss)
        × ((u : String) → (ds.uid == u) ≡ false → SameAt u w p w' p')
    AfterOne ds w p (again _, _) = Unit
    AfterOne ds w p (give_up _, _) = Unit
    AfterOne ds w p (crashed _, _) = Unit

    abbrev pub AfterAll : List DaemonSet → W → Progress → Attempt × (W × Progress) → Type 0
    AfterAll dss w p (done, (w', p')) =
        All (Started w' p') dss
        × (p'.dss ≡ p.dss)
        × ((u : String) → has_uid u dss ≡ false → SameAt u w p w' p')
    AfterAll dss w p (again _, _) = Unit
    AfterAll dss w p (give_up _, _) = Unit
    AfterAll dss w p (crashed _, _) = Unit

    module _ (ops : PxClusterOps W) (ns : String) (S : IsDaemonStore ops ns) where
      -- A daemon set is sent with containers that run the image, if it has one of Portworx.
      send-AfterOne :
          (ds sent : DaemonSet) (w : W) (p q : Progress)
          → ds.uid ≡ sent.uid
          → q.dss ≡ p.dss
          → (has_px_container ds.pod.containers ≡ true
              → (runs_image image sent.pod.containers ≡ true)
                × (lookup ds.uid q.expected_generations ≡ some (generation_to_come ds)))
          → ((u : String)
              → (ds.uid == u) ≡ false
              → lookup u q.expected_generations ≡ lookup u p.expected_generations)
          → AfterOne ds w p (send ops image sent (w, q))
      send-AfterOne ds sent w p q same_uid same_dss good others =
          go (ops.k8s_apps.update_daemon_set sent w).0 (ops.k8s_apps.update_daemon_set sent w).1
            (S.update_daemon_set_stores sent w)
        where
          go :
              (r : Result DaemonSet) (w' : W)
              → Stores sent w (r, w')
              → AfterOne ds w p (after_update ops image r w' q)
          go (ok _) w' h = (
            λ px. (
              (
                sent.pod.containers,
                h ds.uid ∙ ground (arith, same_uid, eq_refl ds.uid),
                (good px).0,
              ),
              (good px).1,
            ),
            same_dss,
            λ u other. (h u ∙ ground (arith, same_uid, other), others u other),
          )
          go (err _) w' h = tt
          go (panic _) w' h = tt

      expect-others :
          (ds : DaemonSet) (n : ℕ) (p : Progress) (u : String)
          → (ds.uid == u) ≡ false
          → lookup u (expect ds n p).expected_generations ≡ lookup u p.expected_generations
      expect-others ds n p u other =
          lookup-insert ds.uid u n p.expected_generations ∙ ground (arith, other)

      expect_self :
          (ds : DaemonSet) (n : ℕ) (p : Progress)
          → lookup ds.uid (expect ds n p).expected_generations ≡ some n
      expect_self ds n p =
          lookup-insert ds.uid ds.uid n p.expected_generations ∙ ground (arith, eq_refl ds.uid)

      pub carry_out-AfterOne :
          (ds : DaemonSet) (q : Plan) (w : W) (p : Progress)
          → InStore w ds
          → Sound image ds.pod.containers q
          → AfterOne ds w p (carry_out ops image ds q (w, p))
      carry_out-AfterOne ds no_px_container w p there lacks =
          send-AfterOne ds ds w p p refl refl (λ px. absurd (ground (arith, lacks, px)))
            λ u other. refl
      carry_out-AfterOne ds (image_by_env old) w p there set = tt
      carry_out-AfterOne ds up_to_date w p there (same, free) = (
        λ px. (
          (ds.pod.containers, there, same),
          expect_self ds ds.observed_generation p ∙ rw same refl,
        ),
        refl,
        λ u other. (refl, expect-others ds ds.observed_generation p u other),
      )
      carry_out-AfterOne ds (new_containers cs) w p there (_, new, old, free) = go ds.annotations
        where
          go :
              (annotations : Option Labels)
              → AfterOne ds w p
                  (send_annotated ops image ds cs annotations (w, expect ds (next_generation ds) p))
          go none = tt
          go (some m) =
              send-AfterOne ds (with_containers ds cs (annotated image m)) w p
                (expect ds (next_generation ds) p) refl refl
                (λ px. (new, expect_self ds (next_generation ds) p ∙ rw old refl))
                λ u other. expect-others ds (next_generation ds) p u other
