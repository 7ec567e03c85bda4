-- ===== src/Kube/Presence.antt =====
-- Which objects a cluster has, and what it is to delete one. An object counts as present until its
-- deletion has been accepted, though the cluster may take time to remove what belongs to it.
use talisman.Common.{
  String, ◌==◌, ◌≡◌, Bool, true, false, ◌&&◌, ◌||◌, ℕ, eqb, List, [], ◌∷◌, ◌++◌, arith,
}
use talisman.Go.Results.{Result, ok, err, panic, is_not_found, Action}

pub data ObjectKind : Type 0 where
  daemon_set deployment stateful_set cluster_role cluster_role_binding role role_binding :
      ObjectKind
  service_account service secret config_map storage_class webhook namespace_object : ObjectKind

abbrev pub kind_code : ObjectKind → ℕ
kind_code daemon_set = 0
kind_code deployment = 1
kind_code stateful_set = 2
kind_code cluster_role = 3
kind_code cluster_role_binding = 4
kind_code role = 5
kind_code role_binding = 6
kind_code service_account = 7
kind_code service = 8
kind_code secret = 9
kind_code config_map = 10
kind_code storage_class = 11
kind_code webhook = 12
kind_code namespace_object = 13

-- An object's identity; the namespace of one that belongs to the whole cluster is "".
pub record Object : Type 0 where
  pub kind : ObjectKind
  pub namespace : String
  pub name : String

abbrev pub object : ObjectKind → String → String → Object
object kind namespace name = record { kind = kind; namespace = namespace; name = name }

abbrev pub global : ObjectKind → String → Object
global kind name = object kind "" name

unfoldable pub same_object : Object → Object → Bool
same_object a b =
    eqb (kind_code a.kind) (kind_code b.kind) && a.namespace == b.namespace && a.name == b.name

abbrev pub contains_object : List Object → Object → Bool
contains_object [] o = false
contains_object (x ∷ xs) o = same_object x o || contains_object xs o

pub contains_object-append :
    (xs ys : List Object) (o : Object)
    → contains_object (xs ++ ys) o ≡ (contains_object xs o || contains_object ys o)
contains_object-append [] ys o = ground arith
contains_object-append (x ∷ xs) ys o = ground (arith, contains_object-append xs ys o)

module _ {W : Type 0} (has : W → Object → Bool) where
  -- Nothing appears, and what is out of reach stays.
  abbrev pub OnlyRemoves : (Object → Bool) → W → W → Type 0
  OnlyRemoves reach w w' =
      ((o : Object) → reach o ≡ false → has w' o ≡ has w o)
      × ((o : Object) → has w o ≡ false → has w' o ≡ false)

  abbrev pub IsGone : (Object → Bool) → W → Type 0
  IsGone gone w = (o : Object) → gone o ≡ true → has w o ≡ false

  -- A call that deletes one object: after success, or where it is reported as not found, the object
  -- is absent. Any other error leaves open whether it was deleted.
  abbrev pub Removed : Object → (Object → Bool) → W → Result (Unit {0}) × W → Type 0
  Removed x reach w (ok _, w') = IsGone (same_object x) w' × OnlyRemoves reach w w'
  Removed x reach w (err e, w') =
      (is_not_found e ≡ true → IsGone (same_object x) w') × OnlyRemoves reach w w'
  Removed x reach w (panic _, w') = OnlyRemoves reach w w'

  abbrev pub Removes : Object → (Object → Bool) → Action W (Unit {0}) → Type 0
  Removes x reach m = (w : W) → Removed x reach w (m w)

  -- A call that only looks.
  abbrev pub LeavesAlone : W → W → Type 0
  LeavesAlone w w' = (o : Object) → has w' o ≡ has w o
