-- ===== src/K8sutils/Scaling/ChangeLaws.antt =====
-- pkg/k8sutils/k8sutils.go: laws of the changes that the tasks make of an application: its key, its
-- count of replicas, the count kept in the annotation, and repeated changes.
use mathlib.Core.Option
use talisman.Common.{
  String, zero, suc, ◌≡◌, refl, ◌∙◌, ap, inl, inr, true, false, Option, none, some, List, [], ◌∷◌,
  lookup-erase_self, arith, Bool-cases, Option-cases, if◌then◌else◌,
}
use talisman.Go.Numbers.{ℤ, pos, negsuc, is_zero}
use talisman.Kube.Objects.{Workload}
use talisman.K8sutils.Instance.{replica_memory_key}
use talisman.K8sutils.Scaling.Change.{
  Change, keep, put, refuse, crash_with, scale_deployment, scale_stateful_set, remember,
  IntOrString, restore_app,
}
use talisman.K8sutils.Scaling.Store.{Key, same_key, same_key-eq}
use talisman.K8sutils.Scaling.Edits.{KeepsKey, edit, edits, contains_key, Settles}

pub scale_deployment-KeepsKey : KeepsKey scale_deployment
unfolding scale_deployment
scale_deployment-KeepsKey d d' e = ground arith

pub scale_stateful_set-KeepsKey : KeepsKey scale_stateful_set
unfolding scale_stateful_set
scale_stateful_set-KeepsKey s s' e = ground arith

-- No replicas are left.
abbrev pub IsAtZero : Workload → Type 0
IsAtZero d = d.replicas ≡ some (pos 0)

is_zero-eq : (r : ℤ) → is_zero r ≡ true → r ≡ pos 0
is_zero-eq (pos zero) h = refl
is_zero-eq (pos (suc n)) h = cc
is_zero-eq (negsuc n) h = cc

remember-Settles : (d : Workload) (r : ℤ) → Settles IsAtZero d (remember d r)
unfolding remember
remember-Settles d r = elim (Option-cases (d.annotations)) [
  | inl e ↦ rw (e, remember) tt
  | inr (m, e) ↦ rw (e, remember) refl
]

pub scale_deployment-Settles : (d : Workload) → Settles IsAtZero d (scale_deployment d)
unfolding scale_deployment
scale_deployment-Settles d = elim (Option-cases (d.replicas)) [
  | inl e ↦ rw (e, scale_deployment) tt
  | inr (r, e) ↦ elim (Bool-cases (is_zero r)) [
    | inl none_left ↦ rw (e, scale_deployment, none_left) (ap some (is_zero-eq r none_left))
    | inr more ↦
        rw (e, scale_deployment, more) (remember-Settles (record d { replicas = some r }) r)
  ]
]

pub scale_stateful_set-Settles : (s : Workload) → Settles IsAtZero s (scale_stateful_set s)
unfolding scale_stateful_set
scale_stateful_set-Settles s = elim (Option-cases (s.replicas)) [
  | inl e ↦ rw (e, scale_stateful_set) tt
  | inr (r, e) ↦ rw (e, scale_stateful_set) (remember-Settles (record s { replicas = some r }) r)
]

-- Nothing is claimed of an application.
pub Settles-trivial : (d : Workload) (c : Change) → Settles (λ _. Unit) d c
Settles-trivial d keep = tt
Settles-trivial d (put _) = tt
Settles-trivial d (refuse _) = tt
Settles-trivial d (crash_with _) = tt

module _ (parse : String → IntOrString) where
  pub restore_app-KeepsKey : KeepsKey (restore_app parse)
  unfolding restore_app
  restore_app-KeepsKey d d' e = ground arith

  pub restore_app_idem :
      (d : Workload)
      → edit (restore_app parse) (edit (restore_app parse) d) ≡ edit (restore_app parse) d
  unfolding restore_app
  restore_app_idem d = elim (Option-cases (d.annotations)) [
    | inl e ↦ ground arith
    | inr (m, e) ↦ ground (arith, lookup-erase_self replica_memory_key m)
  ]

pub scale_deployment_idem :
    (d : Workload) → edit scale_deployment (edit scale_deployment d) ≡ edit scale_deployment d
unfolding scale_deployment
scale_deployment_idem d = ground arith

-- An edit that may be repeated is made once in effect.
pub edits_idem :
    (change : Workload → Change) (key : Key) (ks : List Key) (o : Option Workload)
    → ((d : Workload) → edit change (edit change d) ≡ edit change d)
    → edits change key ks o ≡ (if contains_key ks key then Option.map (edit change) o else o)
edits_idem change key [] o idem = refl
edits_idem change key (k ∷ ks) none idem = ground (arith, edits_idem change key ks none idem)
edits_idem change key (k ∷ ks) (some d) idem = ground (
  arith,
  idem d,
  edits_idem change key ks (some d) idem,
  edits_idem change key ks (some (edit change d)) idem,
)

-- No key is listed twice.
abbrev pub IsDistinct : List Key → Type 0
IsDistinct [] = Unit
IsDistinct (k ∷ ks) = (contains_key ks k ≡ false) × IsDistinct ks

pub edits_distinct :
    (change : Workload → Change) (key : Key) (ks : List Key) (o : Option Workload)
    → IsDistinct ks
    → edits change key ks o ≡ (if contains_key ks key then Option.map (edit change) o else o)
edits_distinct change key [] o h = refl
edits_distinct change key (k ∷ ks) o (fresh, h) = elim (Bool-cases (same_key k key)) [
  | inl hit ↦
      let at : k ≡ key = same_key-eq k key hit in
      let fresh' : contains_key ks key ≡ false = rw (← at) fresh in
      rw hit (edits_distinct change key ks (Option.map (edit change) o) h ∙ rw fresh')
  | inr miss ↦ rw miss (edits_distinct change key ks o h)
]
