-- ===== src/Px/Upgrade/Preflight.antt =====
-- pkg/cluster/px/px.go: `preFlightChecks`, and what has passed it.
use talisman.Common.{
  String, ◌==◌, ◌≡◌, refl, ◌⊎◌, inl, inr, Bool, true, false, Bool-cases, Option, none, some, List,
  [], ◌∷◌, if◌then◌else◌,
}
use talisman.Go.Results.{
  Error, api, timed_out, errorf, wrapped, no_px_daemonset, using_internal_etcd, Result, ok, err,
  panic, continue_with, handle, pure, raise, for_each, catch,
}
use talisman.Kube.Objects.{DaemonSet}
use talisman.Api.{ClusterSpec}
use talisman.K8sutils.Instance.{minute}
use talisman.K8sutils.Pods.{is_any_px_app_pod_unmanaged}
use talisman.Px.Ops.{PxClusterOps, is_empty}
use talisman.Px.Config.{Parsed}
use talisman.Px.Upgrade.{check_parsed, only_namespace, required, pre_flight_checks, check_drain}
use talisman.Px.Upgrade.Quiet.{pure-Quiet, then-Quiet, catch-Quiet, if-Quiet, for_each-Quiet}
use talisman.Px.Upgrade.Reading.{
  whole, Reads, IsReader, get_px_daemonsets-Reads, is_any_px_app_pod_unmanaged-Reads,
}
use talisman.Px.Upgrade.Checks.{Verdict, refused, admitted, guard, AllValid, IsReady, IsAccepted}

pub required-eq :
    {W A : Type 0} (o : Option A) (w : W) (a : A) → (required {W = W} o w).0 ≡ ok a → o ≡ some a
required-eq none w a e = cc
required-eq (some b) w a e = cc

pub only_namespace-eq :
    {W : Type 0} (xs : List String) (w : W) (ns : String)
    → (only_namespace {W = W} xs w).0 ≡ ok ns
    → xs ≡ ns ∷ []
only_namespace-eq [] w ns e = cc
only_namespace-eq (x ∷ []) w ns e = cc
only_namespace-eq (x ∷ y ∷ rest) w ns e = cc

pub only_namespace-Reads : {W : Type 0} (xs : List String) → Reads {W = W} (only_namespace xs)
only_namespace-Reads [] = pure-Quiet whole (err _)
only_namespace-Reads (x ∷ []) = pure-Quiet whole (ok x)
only_namespace-Reads (x ∷ y ∷ rest) = pure-Quiet whole (err _)

pub required-Reads : {W A : Type 0} (o : Option A) → Reads {W = W} (required o)
required-Reads none = pure-Quiet whole (err _)
required-Reads (some a) = pure-Quiet whole (ok a)

pub check_parsed-IsAccepted :
    {W : Type 0} (p : Parsed) (w : W) → (check_parsed {W = W} p.error w).0 ≡ ok tt → IsAccepted p
check_parsed-IsAccepted {W} p w = go p.error
  where
    go :
        (e : Option Error)
        → (check_parsed {W = W} e w).0 ≡ ok tt
        → (e ≡ none) ⊎ (e ≡ some using_internal_etcd)
    go none h = inl refl
    go (some using_internal_etcd) h = inr refl
    go (some no_px_daemonset) h = cc
    go (some (api _ _)) h = cc
    go (some timed_out) h = cc
    go (some (errorf _ _)) h = cc
    go (some (wrapped _ _ _)) h = cc

pub check_parsed-Reads : {W : Type 0} (e : Option Error) → Reads {W = W} (check_parsed e)
check_parsed-Reads none = pure-Quiet whole (ok tt)
check_parsed-Reads (some using_internal_etcd) = pure-Quiet whole (ok tt)
check_parsed-Reads (some no_px_daemonset) = pure-Quiet whole (err _)
check_parsed-Reads (some (api _ _)) = pure-Quiet whole (err _)
check_parsed-Reads (some timed_out) = pure-Quiet whole (err _)
check_parsed-Reads (some (errorf _ _)) = pure-Quiet whole (err _)
check_parsed-Reads (some (wrapped _ _ _)) = pure-Quiet whole (err _)

module _ {W : Type 0} (ops : PxClusterOps W) (R : IsReader ops) where
  for_each_valid :
      (h : Error → Error) (dss : List DaemonSet) (w : W) (Fact : Type 0)
      → (AllValid ops w dss → Fact)
      → Verdict Fact w (
          for_each dss
            (λ d.
              catch
                (ops.k8s_apps.validate_daemon_set d.name d.namespace minute)
                λ e w. (err (h e), w))
            w)
  unfolding for_each
  for_each_valid h [] w Fact k = admitted (k tt)
  for_each_valid h (d ∷ dss) w Fact k =
      guard Fact w _ _
        (catch-Quiet whole _ _ (R.validate_daemon_set_reads d.name d.namespace minute)
          λ e. pure-Quiet whole (err (h e)))
        λ _ e. for_each_valid h dss w Fact λ rest. k (valid _ e, rest)
    where
      valid :
          (r : Result (Unit {0}) × W)
          → (handle (λ e w. (err (h e), w)) r.0 r.1).0 ≡ ok tt
          → r.0 ≡ ok tt
      valid (ok tt, w') e = refl
      valid (err _, w') e = cc
      valid (panic _, w') e = cc

  pub pre_flight_checks-Verdict :
      (spec : ClusterSpec) (w : W) → Verdict (IsReady ops spec w) w (pre_flight_checks ops spec w)
  unfolding pre_flight_checks
  pre_flight_checks-Verdict spec w = elim (Bool-cases (spec.oci_mon_tag == "")) [
    | inl missing ↦ rw missing (refused refl λ a. cc)
    | inr there ↦ rw there (
        guard (IsReady ops spec w) w _ _ (get_px_daemonsets-Reads ops R) λ dss listed.
          elim (Bool-cases (is_empty dss)) [
            | inl none_left ↦ rw none_left (refused refl λ a. cc)
            | inr some_left ↦ rw some_left (
                for_each_valid _ dss w (IsReady ops spec w) λ valid. record {
                  versioned = there;
                  dss = dss;
                  listed = listed;
                  installed = some_left;
                  valid = valid;
                })
          ])
  ]

  pub pre_flight_checks-Reads : (spec : ClusterSpec) → Reads (pre_flight_checks ops spec)
  unfolding pre_flight_checks
  pre_flight_checks-Reads spec = if-Quiet whole _ _ _ (pure-Quiet whole (err _)) (
      then-Quiet whole _ _ (get_px_daemonsets-Reads ops R) λ dss.
        if-Quiet whole _ _ _ (pure-Quiet whole (err _)) (
          for_each-Quiet whole dss _ λ d.
            catch-Quiet whole _ _ (R.validate_daemon_set_reads d.name d.namespace minute)
              λ e. pure-Quiet whole (err _)))

  pub check_drain-Reads : (drained : Bool) → Reads (check_drain ops drained)
  unfolding check_drain
  check_drain-Reads false = pure-Quiet whole (ok tt)
  check_drain-Reads true =
      then-Quiet whole _ _ (is_any_px_app_pod_unmanaged-Reads ops R)
        λ u. if-Quiet whole u _ _ (pure-Quiet whole (err _)) (pure-Quiet whole (ok tt))

  pub check_drain-managed :
      (drained : Bool) (w : W)
      → (check_drain ops drained w).0 ≡ ok tt
      → drained ≡ true
      → (is_any_px_app_pod_unmanaged ops.utils w).0 ≡ ok false
  unfolding check_drain
  check_drain-managed false w e h = cc
  check_drain-managed true w e h =
      go _ (is_any_px_app_pod_unmanaged ops.utils w).0 (is_any_px_app_pod_unmanaged ops.utils w).1 e
    where
      go :
          (x : Error) (r : Result Bool) (w' : W)
          → (continue_with (λ u. if u then raise x else pure tt) r w').0 ≡ ok tt
          → r ≡ ok false
      go x (ok true) w' h = cc
      go x (ok false) w' h = refl
      go x (err _) w' h = cc
      go x (panic _) w' h = cc
