-- ===== src/K8sutils/Scaling/Memory.antt =====
-- What the annotation of an application remembers: scaling down and restoring, without the cluster.
use talisman.Common.{
  String, ◌==◌, ◌≡◌, refl, inl, inr, none, some, true, false, lookup, insert, erase, lookup-insert,
  erase-insert, eq_iff, eq_refl, arith, Bool-cases,
}
use talisman.Go.Numbers.{ℤ, pos, is_zero, InInt32, sprint_int, atoi}
use talisman.Go.Numbers.RoundTrip.{atoi-sprint_int}
use talisman.Kube.Objects.{Labels, Workload}
use talisman.K8sutils.Instance.{replica_memory_key}
use talisman.K8sutils.Scaling.Change.{
  keep, put, scale_deployment, scale_stateful_set, IntOrString, int, restore_app, changed,
}

-- The documented behaviour of `intstr.Parse` on the text of an `int32`.
abbrev pub ReadsCounts : (String → IntOrString) → Type 0
ReadsCounts parse = (s : String) (z : ℤ) → InInt32 z → atoi s ≡ some z → parse s ≡ int z

-- An application with a map of annotations and a count of replicas, of which no count is kept.
pub record IsFresh (d : Workload) (m : Labels) (r : ℤ) : Type 0 where
  pub annotated : d.annotations ≡ some m
  pub counted : d.replicas ≡ some r
  pub unmarked : lookup replica_memory_key m ≡ none
  pub in_range : InInt32 r

abbrev pub remembered : Workload → Labels → ℤ → Workload
remembered d m r = record d {
  annotations = some (insert replica_memory_key (sprint_int r) m);
  replicas = some (pos 0);
}

sprint_int-ne-nil : (r : ℤ) → InInt32 r → (sprint_int r == "") ≡ false
sprint_int-ne-nil r h = elim (Bool-cases (sprint_int r == "")) [
  | inl same ↦
      let e : sprint_int r ≡ "" = (eq_iff (sprint_int r) "").0 same in
      let wrong : atoi "" ≡ some r = rw (← e) (atoi-sprint_int r h) in unfold atoi in cc wrong
  | inr other ↦ other
]

module _ (d : Workload) (m : Labels) (r : ℤ) where
  scale_deployment-eq-put :
      d.annotations ≡ some m
      → d.replicas ≡ some r
      → is_zero r ≡ false
      → scale_deployment d ≡ put (remembered d m r)
  unfolding scale_deployment
  scale_deployment-eq-put am rm more = ground arith

  scale_deployment-eq-keep : d.replicas ≡ some r → is_zero r ≡ true → scale_deployment d ≡ keep
  unfolding scale_deployment
  scale_deployment-eq-keep rm none_left = ground arith

  scale_stateful_set-eq-put :
      d.annotations ≡ some m → d.replicas ≡ some r → scale_stateful_set d ≡ put (remembered d m r)
  unfolding scale_stateful_set
  scale_stateful_set-eq-put am rm = ground arith

  restore_app-eq-keep :
      (parse : String → IntOrString)
      → d.annotations ≡ some m
      → lookup replica_memory_key m ≡ none
      → restore_app parse d ≡ keep
  unfolding restore_app
  restore_app-eq-keep parse am unmarked = ground arith

module _ (parse : String → IntOrString) (reads : ReadsCounts parse) where
  -- The restored count is the one that was remembered.
  pub restore-remembered :
      (d : Workload) (m : Labels) (r : ℤ)
      → InInt32 r
      → restore_app parse (remembered d m r)
        ≡ put (record d {
          annotations =
              some (erase replica_memory_key (insert replica_memory_key (sprint_int r) m));
          replicas = some r;
        })
  unfolding restore_app
  restore-remembered d m r h = ground (
    arith,
    lookup-insert replica_memory_key replica_memory_key (sprint_int r) m,
    eq_refl replica_memory_key,
    sprint_int-ne-nil r h,
    reads (sprint_int r) r h (atoi-sprint_int r h),
  )

  restored_remembered :
      (d : Workload) (m : Labels) (r : ℤ)
      → IsFresh d m r
      → changed (restore_app parse (remembered d m r)) (remembered d m r) ≡ d
  restored_remembered d m r fresh =
      rw (restore-remembered d m r fresh.in_range, erase-insert _ _ m fresh.unmarked)
        (ground (arith, fresh.annotated, fresh.counted))

  -- Scaling a deployment down and restoring it gives the deployment back, if it is fresh.
  pub restore_app-scale_deployment :
      (d : Workload) (m : Labels) (r : ℤ)
      → IsFresh d m r
      → let d' = changed (scale_deployment d) d in changed (restore_app parse d') d' ≡ d
  restore_app-scale_deployment d m r fresh = elim (Bool-cases (is_zero r)) [
    | inl none_left ↦ rw (
      scale_deployment-eq-keep d m r fresh.counted none_left,
      restore_app-eq-keep d m r parse fresh.annotated fresh.unmarked,
    )
    | inr more ↦
        rw (scale_deployment-eq-put d m r fresh.annotated fresh.counted more)
          (restored_remembered d m r fresh)
  ]

  -- The same of a stateful set that is scaled down once.
  pub restore_app-scale_stateful_set :
      (s : Workload) (m : Labels) (r : ℤ)
      → IsFresh s m r
      → let s' = changed (scale_stateful_set s) s in changed (restore_app parse s') s' ≡ s
  restore_app-scale_stateful_set s m r fresh =
      rw (scale_stateful_set-eq-put s m r fresh.annotated fresh.counted)
        (restored_remembered s m r fresh)

  -- A stateful set that is scaled down twice is restored to no replicas.
  pub restore_app-scale_twice :
      (s : Workload) (m : Labels) (r : ℤ)
      → s.annotations ≡ some m
      → s.replicas ≡ some r
      → let s' = changed (scale_stateful_set s) s in
        let s'' = changed (scale_stateful_set s') s' in
        (changed (restore_app parse s'') s'').replicas ≡ some (pos 0)
  restore_app-scale_twice s m r am rm = rw (scale_stateful_set-eq-put s m r am rm) (
      rw (scale_stateful_set-eq-put (remembered s m r) _ (pos 0) refl refl)
        (rw (restore-remembered (remembered s m r) _ (pos 0) (omega arith))))
