-- ===== src/K8sutils/Scaling/Both.antt =====
-- The part that `ScaleSharedAppsToZero` and `RestoreScaledAppsReplicas` have in common: the shared
-- applications are listed, the deployments are edited, and then the stateful sets.
use talisman.Common.{
  ◌≡◌, sym, ◌∙◌, ap, inl, inr, true, false, ◌||◌, Option, some, List, [], ◌∷◌, map, arith,
  Bool-cases,
}
use talisman.Go.Results.{Result, ok, err, panic, Action, continue_with, ◌>>=◌, ◌>>◌}
use talisman.Go.Retry.{Retrier, IsRetry}
use talisman.Kube.Objects.{Workload}
use talisman.K8sutils.Instance.{Instance}
use talisman.K8sutils.Apps.{get_px_shared_apps}
use talisman.K8sutils.Scaling.Change.{Change}
use talisman.K8sutils.Scaling.Tasks.{edit_deployments, edit_stateful_sets}
use talisman.K8sutils.Scaling.Store.{
  AppKind, deployment, stateful_set, Key, key_of, same_key, same_key-eq, View, Same, Yielded,
  IsAppStore,
}
use talisman.K8sutils.Scaling.Listing.{
  Inventory, IsListed, shared_deployments, shared_stateful_sets, get_px_shared_apps-Yields,
}
use talisman.K8sutils.Scaling.Edits.{
  KeepsKey, edit, edits, edits_absent, contains_key, Settles, EditedAll,
}
use talisman.K8sutils.Scaling.Loops.{edit_deployments-EditedAll, edit_stateful_sets-EditedAll}

contains_key-kind :
    (kind : AppKind) (apps : List Workload) (key : Key)
    → contains_key (map (key_of kind) apps) key ≡ true
    → key.kind ≡ kind
contains_key-kind kind [] key h = cc
contains_key-kind kind (d ∷ apps) key h = elim (Bool-cases (same_key (key_of kind d) key)) [
  | inl hit ↦ ap (λ (k : Key). k.kind) (sym (same_key-eq (key_of kind d) key hit))
  | inr miss ↦ contains_key-kind kind apps key (ground arith)
]

-- A deployment is not on a list of stateful sets.
contains_key-other :
    (ds ss : List Workload) (key : Key)
    → contains_key (map (key_of deployment) ds) key ≡ true
    → contains_key (map (key_of stateful_set) ss) key ≡ false
contains_key-other ds ss key h =
    elim (Bool-cases (contains_key (map (key_of stateful_set) ss) key)) [
      | inl both ↦
          cc (contains_key-kind deployment ds key h, contains_key-kind stateful_set ss key both)
      | inr other ↦ other
    ]

module _ {W : Type 0} (view : View W) (cd cs : Workload → Change) (Z : Workload → Type 0) where
  -- Success: what is stored, and what the shared applications that exist are like. No key is on
  -- both lists.
  abbrev pub EditedBoth : List Key → List Key → W → Result (Unit {0}) × W → Type 0
  EditedBoth ds ss w (ok _, w') =
      ((key : Key) → view w' key ≡ edits cs key ss (edits cd key ds (view w key)))
      × ((key : Key) (d : Workload)
          → (contains_key ds key || contains_key ss key) ≡ true
          → view w' key ≡ some d
          → Z d)
      × ((key : Key) → contains_key ds key ≡ true → contains_key ss key ≡ false)
  EditedBoth ds ss w (err _, w') = Unit
  EditedBoth ds ss w (panic _, w') = Unit

module _ {W : Type 0} (view : View W) (R : Retrier) (retries : IsRetry R) (k : Instance W)
    (i : Inventory) (store : IsAppStore view k.kube_client) (listed : IsListed view k i)
    (cd cs : Workload → Change) (idem_d : (d : Workload) → edit cd (edit cd d) ≡ edit cd d)
    (keeps_d : KeepsKey cd) (keeps_s : KeepsKey cs) (Z : Workload → Type 0)
    (settles_d : (d : Workload) → Settles Z d (cd d))
    (settles_s : (s : Workload) → Settles Z s (cs s)) where
  abbrev edit_shared : Action W (Unit {0})
  edit_shared = get_px_shared_apps k >>= λ apps.
      edit_deployments R k cd apps.0 >> edit_stateful_sets R k cs apps.1

  then_stateful_sets :
      (ds ss : List Workload) (w w₁ w₂ : W) (o : Result (Unit {0}) × W)
      → Same view w w₁
      → EditedAll view cd Z (map (key_of deployment) ds) w₁ (ok tt, w₂)
      → EditedAll view cs Z (map (key_of stateful_set) ss) w₂ o
      → EditedBoth view cd cs Z (map (key_of deployment) ds) (map (key_of stateful_set) ss) w o
  then_stateful_sets ds ss w w₁ w₂ (ok _, w') same (ed, zd) (es, zs) =
      (edited, settled, contains_key-other ds ss)
    where
      dk : List Key
      dk = map (key_of deployment) ds

      sk : List Key
      sk = map (key_of stateful_set) ss

      edited : (key : Key) → view w' key ≡ edits cs key sk (edits cd key dk (view w key))
      edited key =
          es key
          ∙ ap (edits cs key sk) (ed key)
          ∙ ap (λ (o : Option Workload). edits cs key sk (edits cd key dk o)) (same key)

      settled :
          (key : Key) (d : Workload)
          → (contains_key dk key || contains_key sk key) ≡ true
          → view w' key ≡ some d
          → Z d
      settled key d h v = elim (Bool-cases (contains_key dk key)) [
        | inl is_deployment ↦ zd key d is_deployment (
            sym (edits_absent cs key sk (view w₂ key) (contains_key-other ds ss key is_deployment))
            ∙ sym (es key)
            ∙ v)
        | inr other ↦ zs key d (ground (arith, other)) v
      ]
  then_stateful_sets ds ss w w₁ w₂ (err _, w') same d s = tt
  then_stateful_sets ds ss w w₁ w₂ (panic _, w') same d s = tt

  then_deployments :
      (ds ss : List Workload) (w w₁ : W) (r : Result (Unit {0})) (w₂ : W)
      → Same view w w₁
      → EditedAll view cd Z (map (key_of deployment) ds) w₁ (r, w₂)
      → EditedBoth view cd cs Z
          (map (key_of deployment) ds)
          (map (key_of stateful_set) ss)
          w
          (continue_with (λ _. edit_stateful_sets R k cs ss) r w₂)
  then_deployments ds ss w w₁ (ok _) w₂ same d =
      then_stateful_sets ds ss w w₁ w₂ (edit_stateful_sets R k cs ss w₂) same d
        (edit_stateful_sets-EditedAll view R retries k store cs keeps_s Z settles_s ss w₂)
  then_deployments ds ss w w₁ (err _) w₂ same d = tt
  then_deployments ds ss w w₁ (panic _) w₂ same d = tt

  pub edit_shared-EditedBoth :
      (w : W)
      → EditedBoth view cd cs Z (shared_deployments i) (shared_stateful_sets i) w (edit_shared w)
  edit_shared-EditedBoth w =
      go (get_px_shared_apps k w).0 (get_px_shared_apps k w).1
        (get_px_shared_apps-Yields view k i listed w)
    where
      go :
          (r : Result (List Workload × List Workload)) (w₁ : W)
          → Yielded view
              (λ apps.
                (map (key_of deployment) apps.0 ≡ shared_deployments i)
                × (map (key_of stateful_set) apps.1 ≡ shared_stateful_sets i))
              w
              (r, w₁)
          → EditedBoth view cd cs Z (shared_deployments i) (shared_stateful_sets i) w (
              continue_with
                (λ apps. edit_deployments R k cd apps.0 >> edit_stateful_sets R k cs apps.1)
                r
                w₁)
      go (ok (ds, ss)) w₁ ((ed, es), same) =
          rw (← ed, ← es)
            (then_deployments ds ss w w₁ (edit_deployments R k cd ds w₁).0
              (edit_deployments R k cd ds w₁).1 same
              (edit_deployments-EditedAll view R retries k store cd keeps_d Z settles_d idem_d ds
                w₁))
      go (err _) w₁ _ = tt
      go (panic _) w₁ _ = tt
