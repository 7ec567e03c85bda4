-- ===== src/K8sutils/Scaling/Loops.antt =====
-- pkg/k8sutils/k8sutils.go: what the loops over the shared applications leave.
use mathlib.Core.Path.{subst}
use mathlib.Core.Option
use mathlib.Core.Option.{some-injective}
use talisman.Common.{
  ℕ, String, ◌≡◌, refl, sym, ◌∙◌, ap, inl, inr, ◌⊎◌, Bool, true, false, Option, none, some, List,
  [], ◌∷◌, map, arith, Bool-cases, if◌then◌else◌,
}
use talisman.Go.Results.{
  Result, ok, err, panic, in_goroutine, is_not_found, Action, continue_with, for_each,
}
use talisman.Go.Retry.{
  Attempt, done, again, give_up, crashed, after_call, Keeps, Attempts-inv, Attempts, Retrier,
  IsRetry,
}
use talisman.Kube.Objects.{Workload}
use talisman.K8sutils.Instance.{Instance}
use talisman.K8sutils.Scaling.Change.{Change, keep, put, refuse, crash_with}
use talisman.K8sutils.Scaling.Tasks.{
  on_read_error, apply_change, edit_task, edit_deployments, edit_stateful_sets,
}
use talisman.K8sutils.Scaling.Store.{
  AppKind, deployment, stateful_set, Key, key_of, same_key, same_key-eq, same_key_refl, View, Same,
  ReadsBack, Wrote, Writes, IsAppStore,
}
use talisman.K8sutils.Scaling.Edits.{KeepsKey, edit, Settles, EditedAll, EditedAll-cons}

module _ {W : Type 0} (view : View W) (kind : AppKind) (in_doubt : Bool)
    (change : Workload → Change)
    (idem : in_doubt ≡ true → (d : Workload) → edit change (edit change d) ≡ edit change d)
    (keeps : KeepsKey change) (Z : Workload → Type 0)
    (settles : (d : Workload) → Settles Z d (change d)) (get : String → String → Action W Workload)
    (update : String → Workload → Action W (Unit {0}))
    (reads : (namespace name : String) (w : W)
      → ReadsBack view
          (record { kind = kind; namespace = namespace; name = name })
          w
          (get namespace name w))
    (writes : (d : Workload) (w : W) → Writes view in_doubt kind d w (update d.namespace d w)) where
  -- The one application is edited, and no other.
  abbrev Once : Key → W → W → Type 0
  Once key w w' =
      (k : Key)
      → view w' k ≡ (if same_key key k then Option.map (edit change) (view w k) else view w k)

  -- Nothing is changed, or the one application is edited by a call that has failed.
  abbrev Near : Key → W → W → Type 0
  Near key w w' = Same view w w' ⊎ ((in_doubt ≡ true) × Once key w w')

  abbrev Edited : Key → W → Result (Unit {0}) → W → Type 0
  Edited key w (ok _) w' = Once key w w' × ((d : Workload) → view w' key ≡ some d → Z d)
  Edited key w (err _) w' = Unit
  Edited key w (panic _) w' = Unit

  module _ (namespace name : String) (w₀ : W) where
    abbrev key : Key
    key = record { kind = kind; namespace = namespace; name = name }

    abbrev Owes : Attempt × W → Type 0
    Owes = Keeps (Near key w₀) (Edited key w₀)

    at_key :
        (d d' : Workload) (w' : W)
        → view w₀ key ≡ some d
        → edit change d ≡ d'
        → Z d'
        → ((k : Key) → view w' k ≡ (if same_key key k then some d' else view w₀ k))
        → Edited key w₀ (ok tt) w'
    at_key d d' w' v e z wrote = (edited, settled)
      where
        edited :
            (k : Key)
            → view w' k
              ≡ (if same_key key k then Option.map (edit change) (view w₀ k) else view w₀ k)
        edited k = elim (Bool-cases (same_key key k)) [
          | inl hit ↦ let same : key ≡ k = same_key-eq key k hit in wrote k ∙ rw (hit, ← same, v, e)
          | inr miss ↦ wrote k ∙ rw miss
        ]

        settled : (c : Workload) → view w' key ≡ some c → Z c
        settled c now =
            let same : some d' ≡ some c =
              ap (λ (b : Bool). if b then some d' else view w₀ key) (sym (same_key_refl key))
              ∙ sym (wrote key)
              ∙ now in
            subst Z (some-injective d' c same) z

    at_absent : (w' : W) → view w₀ key ≡ none → Same view w₀ w' → Edited key w₀ (ok tt) w'
    at_absent w' absent same = (edited, λ d now. cc (same key, absent, now))
      where
        edited :
            (k : Key)
            → view w' k
              ≡ (if same_key key k then Option.map (edit change) (view w₀ k) else view w₀ k)
        edited k = elim (Bool-cases (same_key key k)) [
          | inl hit ↦ let at : key ≡ k = same_key-eq key k hit in same k ∙ rw (hit, ← at, absent)
          | inr miss ↦ rw miss (same k)
        ]

    apply_change-Owes :
        (d : Workload) (c : Change) (w : W)
        → change d ≡ c
        → Settles Z d c
        → view w₀ key ≡ some d
        → d.namespace ≡ namespace
        → d.name ≡ name
        → Same view w₀ w
        → Owes (apply_change update c w)
    apply_change-Owes d keep w e z v ns n same = at_key d d w v (rw e) z λ k.
        elim (Bool-cases (same_key key k)) [
          | inl hit ↦ let at : key ≡ k = same_key-eq key k hit in same k ∙ rw (hit, ← at) v
          | inr miss ↦ rw miss (same k)
        ]
    apply_change-Owes d (put d') w e z v ns n same =
        go (update d'.namespace d' w).0 (update d'.namespace d' w).1 (writes d' w)
      where
        stays : key_of kind d' ≡ key
        stays = let (ens, en) = keeps d d' e in ground (arith, ens, en)

        written : (w' : W) → Wrote view kind d' w w' → Edited key w₀ (ok tt) w'
        written w' wrote = at_key d d' w' v (rw e) z λ k.
            wrote k
            ∙ ap (λ (at : Key). if same_key at k then some d' else view w k) stays
            ∙ ap (λ (o : Option Workload). if same_key key k then some d' else o) (same k)

        go :
            (r : Result (Unit {0})) (w' : W)
            → Writes view in_doubt kind d' w (r, w')
            → Owes (after_call again (λ _ w'. (done, w')) r w')
        go (ok _) w' wrote = written w' wrote
        go (err _) w' (inl more) = inl λ k. more k ∙ same k
        go (err _) w' (inr (doubt, wrote)) = inr (doubt, (written w' wrote).0)
        go (panic _) w' _ = tt
    apply_change-Owes d (refuse x) w e z v ns n same = tt
    apply_change-Owes d (crash_with p) w e z v ns n same = tt

    edit_task-Owes : (w : W) → Same view w₀ w → Owes (edit_task get update change namespace name w)
    unfolding edit_task
    edit_task-Owes w same =
        go (get namespace name w).0 (get namespace name w).1 (reads namespace name w)
      where
        go :
            (r : Result Workload) (w' : W)
            → ReadsBack view key w (r, w')
            → Owes (after_call on_read_error (λ d. apply_change update (change d)) r w')
        go (ok d) w' (v, ns, n, more) =
            apply_change-Owes d (change d) w' refl (settles d) (sym (same key) ∙ v) ns n
              λ k. more k ∙ same k
        go (err x) w' (missing, more) = elim (Bool-cases (is_not_found x)) [
          | inl gone ↦ rw gone (at_absent w' (sym (same key) ∙ missing gone) λ k. more k ∙ same k)
          | inr other ↦ rw other (inl λ k. more k ∙ same k)
        ]
        go (panic _) w' _ = tt

  -- A second edit of the application changes nothing.
  Once-trans : (at : Key) (w s w' : W) → in_doubt ≡ true → Once at w s → Once at s w' → Once at w w'
  Once-trans at w s w' doubt first second k = elim (Bool-cases (same_key at k)) [
    | inl hit ↦
        rw hit
          (second k ∙ rw hit (ap (Option.map (edit change)) (first k) ∙ rw hit (twice (view w k))))
    | inr miss ↦ rw miss (second k ∙ rw miss (first k ∙ rw miss refl))
  ]
    where
      twice :
          (o : Option Workload)
          → Option.map (edit change) (Option.map (edit change) o) ≡ Option.map (edit change) o
      twice none = refl
      twice (some d) = ap some (idem doubt d)

  Once-after : (at : Key) (w s w' : W) → Near at w s → Once at s w' → Once at w w'
  Once-after at w s w' (inl same) second k =
      second k
      ∙ ap (λ (o : Option Workload). if same_key at k then Option.map (edit change) o else o)
          (same k)
  Once-after at w s w' (inr (doubt, first)) second k = Once-trans at w s w' doubt first second k

  Near-trans : (at : Key) (w s w' : W) → Near at w s → Near at s w' → Near at w w'
  Near-trans at w s w' (inl same) (inl more) = inl λ k. more k ∙ same k
  Near-trans at w s w' (inr (doubt, first)) (inl more) = inr (doubt, λ k. more k ∙ first k)
  Near-trans at w s w' near (inr (doubt, second)) = inr (doubt, Once-after at w s w' near second)

  -- One more round.
  round :
      (at : Key) (w s : W) (o : Attempt × W)
      → Near at w s
      → Keeps (Near at s) (Edited at s) o
      → Keeps (Near at w) (Edited at w) o
  round at w s (done, w') near (second, settled) = (Once-after at w s w' near second, settled)
  round at w s (again _, w') near more = Near-trans at w s w' near more
  round at w s (give_up _, w') near more = tt
  round at w s (crashed _, w') near more = tt

  -- However often it is retried, the task that succeeds has edited its application once in effect.
  edit_task-Edited :
      (namespace name : String) {w w' : W} {r : Result (Unit {0})}
      → Attempts in_goroutine (edit_task get update change namespace name) w r w'
      → Edited (record { kind = kind; namespace = namespace; name = name }) w r w'
  edit_task-Edited namespace name {w} run =
      let at = key namespace name w in
      Attempts-inv (Near at w) (Edited at w) _
        (λ s near.
          round at w s (edit_task get update change namespace name s) near
            (edit_task-Owes namespace name s s (λ k. refl)))
        (λ s _. tt) run (inl λ k. refl)

  module _ (R : Retrier) (retries : IsRetry R) (timeout interval : ℕ) where
    abbrev edit_one : Workload → Action W (Unit {0})
    edit_one d = R.retry W timeout interval (edit_task get update change d.namespace d.name)

    loop-EditedAll :
        (apps : List Workload) (w : W)
        → EditedAll view change Z (map (key_of kind) apps) w (for_each apps edit_one w)
    unfolding for_each
    loop-EditedAll [] w = (λ _. refl, λ _ _ h _. cc)
    loop-EditedAll (d ∷ apps) w =
        go (loop-EditedAll apps) (edit_one d w).0 (edit_one d w).1
          (edit_task-Edited d.namespace d.name (retries W timeout interval _ w))
      where
        go :
            ((w' : W)
              → EditedAll view change Z (map (key_of kind) apps) w' (for_each apps edit_one w'))
            → (r : Result (Unit {0})) (w' : W) → Edited (key_of kind d) w r w'
            → EditedAll view change Z
                (map (key_of kind) (d ∷ apps))
                w
                (continue_with (λ _. for_each apps edit_one) r w')
        go rest (ok _) w' one =
            EditedAll-cons view change Z (key_of kind d) (map (key_of kind) apps) w w'
              (for_each apps edit_one w') one.0 one.1 (rest w')
        go rest (err _) w' one = tt
        go rest (panic _) w' one = tt

module _ {W : Type 0} (view : View W) (R : Retrier) (retries : IsRetry R) (k : Instance W)
    (store : IsAppStore view k.kube_client) (change : Workload → Change) (keeps : KeepsKey change)
    (Z : Workload → Type 0) (settles : (d : Workload) → Settles Z d (change d)) where
  pub edit_deployments-EditedAll :
      ((d : Workload) → edit change (edit change d) ≡ edit change d)
      → (deps : List Workload) (w : W)
      → EditedAll view change Z
          (map (key_of deployment) deps)
          w
          (edit_deployments R k change deps w)
  unfolding edit_deployments
  edit_deployments-EditedAll idem =
      loop-EditedAll view deployment true change (λ _. idem) keeps Z settles
        k.kube_client.get_deployment k.kube_client.update_deployment store.get_deployment_reads
        store.update_deployment_writes R retries _ _

  pub edit_stateful_sets-EditedAll :
      (ss : List Workload) (w : W)
      → EditedAll view change Z
          (map (key_of stateful_set) ss)
          w
          (edit_stateful_sets R k change ss w)
  unfolding edit_stateful_sets
  edit_stateful_sets-EditedAll =
      loop-EditedAll view stateful_set false change (λ no. cc no) keeps Z settles
        k.kube_client.get_stateful_set k.kube_client.update_stateful_set
        store.get_stateful_set_reads store.update_stateful_set_writes R retries _ _
