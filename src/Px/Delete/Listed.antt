-- ===== src/Px/Delete/Listed.antt =====
-- What is shown of deleting the objects that a client lists.
use talisman.Common.{
  String, starts_with, ◌≡◌, refl, ◌∙◌, ap, inl, inr, Bool, true, false, ◌&&◌, ◌||◌, List, [], ◌∷◌,
  ◌++◌, map, arith, Bool-cases, eq_iff, eq_refl,
}
use talisman.Go.Results.{Result, ok, err, panic, Action, continue_with, pure, ◌>>=◌, gather}
use talisman.Kube.Objects.{DaemonSet}
use talisman.Kube.Presence.{
  config_map, Object, object, same_object, contains_object, contains_object-append, OnlyRemoves,
  LeavesAlone,
}
use talisman.Px.Delete.{bringup_config_maps}
use talisman.Px.Delete.Laws.{daemon_set_object, ListsDaemonSets, is_config_map_of, is_px_daemonset}
use talisman.Px.Delete.Rules.{Deleted, DeletesAll}

map-append : {A B : Type 0} (f : A → B) (xs ys : List A) → map f (xs ++ ys) ≡ (map f xs ++ map f ys)
map-append f [] ys = refl
map-append f (x ∷ xs) ys = ap (λ zs. f x ∷ zs) (map-append f xs ys)

pub contains_object-map_append :
    {A : Type 0} (f : A → Object) (xs ys : List A) (o : Object)
    → contains_object (map f (xs ++ ys)) o
      ≡ (contains_object (map f xs) o || contains_object (map f ys) o)
contains_object-map_append f xs ys o =
    rw (map-append f xs ys) (contains_object-append (map f xs) (map f ys) o)

module _ {W : Type 0} (has : W → Object → Bool) (labelled : Object → Bool) where
  -- The list has the daemon sets of Portworx in the namespaces, and nothing has changed.
  abbrev pub Lists : List String → W → Result (List DaemonSet) × W → Type 0
  Lists namespaces w (ok dss, w') =
      LeavesAlone has w w'
      × ((o : Object)
          → contains_object (map daemon_set_object dss) o
            ≡ (is_px_daemonset labelled namespaces o && has w o))
  Lists namespaces w (err _, w') = LeavesAlone has w w'
  Lists namespaces w (panic _, w') = LeavesAlone has w w'

  pub gather-Lists :
      (m : String → Action W (List DaemonSet))
      → ((ns : String) (w : W) → ListsDaemonSets has labelled ns w (m ns w))
      → (namespaces : List String) (w : W) → Lists namespaces w (gather namespaces m w)
  unfolding gather is_px_daemonset
  gather-Lists m law [] w = (λ o. refl, λ o. ground arith)
  gather-Lists m law (ns ∷ rest) w =
      first (gather-Lists m law rest) (m ns w).0 (m ns w).1 (law ns w)
    where
      follow :
          (dss : List DaemonSet) (w1 : W)
          → ListsDaemonSets has labelled ns w (ok dss, w1)
          → (r : Result (List DaemonSet)) (w2 : W) → Lists rest w1 (r, w2)
          → Lists (ns ∷ rest) w (continue_with (λ more. pure (dss ++ more)) r w2)
      follow dss w1 (same, listed) (ok more) w2 (same', listed') = (
        λ o. same' o ∙ same o,
        λ o. rw (map-append daemon_set_object dss more) (
            ground (
              arith,
              contains_object-append (map daemon_set_object dss) (map daemon_set_object more) o,
              listed o,
              listed' o,
              same o,
            )),
      )
      follow dss w1 (same, listed) (err _) w2 same' = λ o. same' o ∙ same o
      follow dss w1 (same, listed) (panic _) w2 same' = λ o. same' o ∙ same o

      first :
          ((w1 : W) → Lists rest w1 (gather rest m w1))
          → (r : Result (List DaemonSet)) (w1 : W) → ListsDaemonSets has labelled ns w (r, w1)
          → Lists
              (ns ∷ rest)
              w
              (continue_with (λ dss. gather rest m >>= λ more. pure (dss ++ more)) r w1)
      first others (ok dss) w1 h =
          follow dss w1 h (gather rest m w1).0 (gather rest m w1).1 (others w1)
      first others (err _) w1 h = h
      first others (panic _) w1 h = h

-- The bring-up config maps among the listed ones are those with the prefix.
pub contains_object-bringup_config_maps :
    (ns : String) (cms : List String) (o : Object)
    → contains_object (map (object config_map ns) (bringup_config_maps cms)) o ≡ (
        contains_object (map (object config_map ns) cms) o
        && starts_with o.name "px-bringup-queue-lock")
unfolding bringup_config_maps same_object
contains_object-bringup_config_maps ns [] o = refl
contains_object-bringup_config_maps ns (cm ∷ cms) o =
    elim (Bool-cases (starts_with cm "px-bringup-queue-lock")) [
      | inl with_prefix ↦
          rw with_prefix
            (ground (arith, eq_iff cm o.name, contains_object-bringup_config_maps ns cms o))
      | inr without ↦
          rw without
            (ground (arith, eq_iff cm o.name, contains_object-bringup_config_maps ns cms o))
    ]

pub contains_object-is_config_map_of :
    (ns : String) (cms : List String) (o : Object)
    → contains_object (map (object config_map ns) cms) o ≡ true
    → is_config_map_of ns o ≡ true
unfolding same_object
contains_object-is_config_map_of ns [] o h = cc
contains_object-is_config_map_of ns (cm ∷ cms) o h =
    ground (arith, h, eq_refl o.name, contains_object-is_config_map_of ns cms o)

module _ {W : Type 0} (has : W → Object → Bool) where
  -- A deletion of what was listed deletes all that is present of it.
  pub listed-Deleted :
      (gone reach : Object → Bool) (os : List Object) (k : Action W (Unit {0})) (w w' : W)
      → DeletesAll has os k
      → LeavesAlone has w w'
      → ((o : Object) → gone o ≡ true → has w o ≡ true → contains_object os o ≡ true)
      → ((o : Object) → reach o ≡ false → contains_object os o ≡ false)
      → Deleted has gone reach w (k w')
  listed-Deleted gone reach os k w w' all same complete sound =
      go (k w').0 (k w').1 (all.deletes.runs w')
    where
      wider : (w'' : W) → OnlyRemoves has (contains_object os) w' w'' → OnlyRemoves has reach w w''
      wider w'' (frame, mono) =
          (λ o out. frame o (sound o out) ∙ same o, λ o absent. mono o (same o ∙ absent))

      go :
          (r : Result (Unit {0})) (w'' : W)
          → Deleted has (contains_object os) (contains_object os) w' (r, w'')
          → Deleted has gone reach w (r, w'')
      go (ok _) w'' (absent, only) = (
        λ o h. elim (Bool-cases (has w o)) [
          | inl present ↦ absent o (complete o h present)
          | inr missing ↦ only.1 o (same o ∙ missing)
        ],
        wider w'' only,
      )
      go (err _) w'' only = wider w'' only
      go (panic _) w'' only = wider w'' only
