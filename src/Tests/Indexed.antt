-- ===== src/Tests/Indexed.antt =====
-- The lister of clusters over an indexer of a few objects.
use mathlib.Core.List.{Memᴰ, map}
use talisman.Common.{
  String, ◌<>◌, ◌==◌, ◌≡◌, refl, sym, ap, ◌∙◌, inl, inr, Bool, true, false, Option, none, some,
  List, [], ◌∷◌, Bool-cases, if◌then◌else◌, eq_iff, eq_refl, arith,
}
use talisman.Go.Results.{Error, api, is_missing, ok}
use talisman.Go.Text.Splitting.{lacks}
use talisman.Informers.Resources.{GroupResource}
use talisman.Listers.{Item, of_type, Indexer, resource, list_clusters_in, get_cluster_in}
use talisman.Listers.Indexed.{key_of, IsNamed, IsIndexed, AgreesWith, get_cluster_in-AgreesWith}

-- An object is its namespace and its name; selectors pick all.
abbrev Object : Type 0
Object = String × String

abbrev namespace_of : Object → String
namespace_of o = o.0

abbrev name_of : Object → String
name_of o = o.1

abbrev key : Object → String
key = key_of namespace_of name_of

abbrev find : String → List Object → (Option (Item Object) × Bool) × Option Error
find k [] = ((none, false), none)
find k (o ∷ os) = if key o == k then ((some (of_type o), true), none) else find k os

abbrev keep_if : Bool → Object → List Object → List Object
keep_if true o os = o ∷ os
keep_if false o os = os

abbrev of_namespace : String → List Object → List Object
of_namespace ns [] = []
of_namespace ns (o ∷ os) = keep_if (namespace_of o == ns) o (of_namespace ns os)

find-fine : (k : String) (os : List Object) → (find k os).1 ≡ none
find-fine k [] = refl
find-fine k (o ∷ os) = elim (Bool-cases (key o == k)) [
  | inl same ↦ rw same refl
  | inr other ↦ rw other (find-fine k os)
]

find-present : (o : Object) (os : List Object) → Memᴰ o os → (find (key o) os).0.1 ≡ true
find-present o [] m = elim m [ ]
find-present o (x ∷ os) (Memᴰ.head e) =
    rw (ap (λ y. y == key o) (sym (ap key e)) ∙ eq_refl (key o)) refl
find-present o (x ∷ os) (Memᴰ.tail m) = elim (Bool-cases (key x == key o)) [
  | inl same ↦ rw same refl
  | inr other ↦ rw other (find-present o os m)
]

find-hit :
    (k : String) (os : List Object)
    → (find k os).0.1 ≡ true
    → (o : Object) × ((find k os).0.0 ≡ some (of_type o)) × Memᴰ o os × (key o ≡ k)
find-hit k [] h = ground arith
find-hit k (x ∷ os) h = elim (Bool-cases (key x == k)) [
  | inl same ↦ (x, rw same refl, Memᴰ.head refl, (eq_iff (key x) k).0 same)
  | inr other ↦
      let (o, is, held, at) = find-hit k os (ground (arith, other, h)) in
      (o, rw other is, Memᴰ.tail held, at)
]

keep_if-to :
    (ns : String) (o x : Object) (os kept : List Object) (b : Bool)
    → namespace_of x == ns ≡ b
    → (Memᴰ o kept → Memᴰ o os × (namespace_of o ≡ ns))
    → Memᴰ o (keep_if b x kept)
    → Memᴰ o (x ∷ os) × (namespace_of o ≡ ns)
keep_if-to ns o x os kept true test rest (Memᴰ.head e) =
    (Memᴰ.head e, ap namespace_of e ∙ (eq_iff (namespace_of x) ns).0 test)
keep_if-to ns o x os kept true test rest (Memᴰ.tail m) =
    let (held, same) = rest m in (Memᴰ.tail held, same)
keep_if-to ns o x os kept false test rest m = let (held, same) = rest m in (Memᴰ.tail held, same)

keep_if-from :
    (ns : String) (o x : Object) (os kept : List Object) (b : Bool)
    → namespace_of x == ns ≡ b
    → namespace_of o ≡ ns
    → (Memᴰ o os → Memᴰ o kept)
    → Memᴰ o (x ∷ os)
    → Memᴰ o (keep_if b x kept)
keep_if-from ns o x os kept true test same rest (Memᴰ.head e) = Memᴰ.head e
keep_if-from ns o x os kept true test same rest (Memᴰ.tail m) = Memᴰ.tail (rest m)
keep_if-from ns o x os kept false test same rest (Memᴰ.head e) =
    let hit = sym test ∙ (eq_iff (namespace_of x) ns).1 (sym (ap namespace_of e) ∙ same) in
    ground (arith, hit)
keep_if-from ns o x os kept false test same rest (Memᴰ.tail m) = rest m

of_namespace-to :
    (ns : String) (o : Object) (os : List Object)
    → Memᴰ o (of_namespace ns os)
    → Memᴰ o os × (namespace_of o ≡ ns)
of_namespace-to ns o [] m = elim m [ ]
of_namespace-to ns o (x ∷ os) m =
    keep_if-to ns o x os (of_namespace ns os) (namespace_of x == ns) refl (of_namespace-to ns o os)
      m

of_namespace-from :
    (ns : String) (o : Object) (os : List Object)
    → namespace_of o ≡ ns
    → Memᴰ o os
    → Memᴰ o (of_namespace ns os)
of_namespace-from ns o [] same m = elim m [ ]
of_namespace-from ns o (x ∷ os) same m =
    keep_if-from ns o x os (of_namespace ns os) (namespace_of x == ns) refl same
      (of_namespace-from ns o os same) m

abbrev held : List Object
held = ("prod", "px") ∷ ("test", "px") ∷ ("prod", "px-dr") ∷ []

held-IsNamed : (o : Object) → Memᴰ o held → IsNamed namespace_of name_of o
unfolding lacks
held-IsNamed o (Memᴰ.head e) = rw e (record { namespace_lacks = refl; name_lacks = refl })
held-IsNamed o (Memᴰ.tail (Memᴰ.head e)) =
    rw e (record { namespace_lacks = refl; name_lacks = refl })
held-IsNamed o (Memᴰ.tail (Memᴰ.tail (Memᴰ.head e))) =
    rw e (record { namespace_lacks = refl; name_lacks = refl })
held-IsNamed o (Memᴰ.tail (Memᴰ.tail (Memᴰ.tail m))) = elim m [ ]

abbrev indexer : Indexer (Unit {0}) Object
indexer = record {
  list_all = λ s. (map of_type held, none);
  list_all_by_namespace = λ ns s. (map of_type (of_namespace ns held), none);
  get_by_key = λ k. find k held;
}

abbrev index : IsIndexed namespace_of name_of indexer
index = record {
  contents = held;
  everything = tt;
  named = held-IsNamed;
  never_fails = λ k. find-fine k held;
  present = λ o m. find-present o held m;
  hit = λ k h. find-hit k held h;
  in_namespace = λ ns. of_namespace ns held;
  lists = λ ns _. refl;
  in_namespace-iff = λ ns o. (
    of_namespace-to ns o held,
    λ (h : Memᴰ o held × (namespace_of o ≡ ns)). of_namespace-from ns o held h.1 h.0,
  );
}

abbrev not_found : GroupResource → String → Error
not_found r name = api is_missing (r.resource <> (" " <> (name <> " not found")))

prod_lacks : (lacks "/" "prod" ≡ true) × (lacks "/" "px-dr" ≡ true)
unfolding lacks
prod_lacks = (refl, refl)

get_cluster_in-AgreesWith_example :
    (list_clusters_in not_found indexer "prod" tt
      ≡ ok (("prod", "px") ∷ ("prod", "px-dr") ∷ [], none))
    × AgreesWith namespace_of name_of
        (("prod", "px") ∷ ("prod", "px-dr") ∷ [])
        "px-dr"
        (not_found (resource "cluster") "px-dr")
        (get_cluster_in not_found indexer "prod" "px-dr")
get_cluster_in-AgreesWith_example =
    get_cluster_in-AgreesWith namespace_of name_of indexer index not_found "prod" "px-dr"
      (λ e. ground (arith, eq_iff "prod" "")) prod_lacks.0 prod_lacks.1
