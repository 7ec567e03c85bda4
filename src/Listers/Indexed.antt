-- ===== src/Listers/Indexed.antt =====
-- What the listers find in an indexer that keeps the objects of a type by namespace and name.
use mathlib.Core.List.{Memᴰ}
use talisman.Common.{
  String, ◌<>◌, ◌≡◌, ◌≢◌, refl, sym, ap, ◌∙◌, inl, inr, ◌⊎◌, ◌↔◌, Bool, true, false, Option, none,
  some, List, [], ◌∷◌, map, Bool-cases, arith,
}
use talisman.Go.Results.{Error, Result, ok, err}
use talisman.Go.Text.{split}
use talisman.Go.Text.Splitting.{lacks, split-lacks, split-append}
use talisman.Informers.Resources.{GroupResource}
use talisman.Listers.{
  Item, of_type, Indexer, resource, append_all, listed, got, list_clusters_in, get_cluster_in,
}

abbrev first : List String → String
first [] = ""
first (a ∷ _) = a

abbrev second : List String → String
second [] = ""
second (_ ∷ ts) = first ts

split-key :
    (ns name : String)
    → lacks "/" ns ≡ true
    → lacks "/" name ≡ true
    → split "/" (ns <> ("/" <> name)) ≡ ns ∷ name ∷ []
split-key ns name ns_lacks name_lacks =
    split-append "/" ns name ns_lacks ∙ ap (λ ts. ns ∷ ts) (split-lacks "/" name name_lacks)

module _ {Object : Type 0} (namespace_of name_of : Object → String) where
  -- The key of `cache.MetaNamespaceKeyFunc` for an object with a namespace.
  abbrev pub key_of : Object → String
  key_of o = namespace_of o <> ("/" <> name_of o)

  -- Objects as Kubernetes accepts them.
  pub record IsNamed (o : Object) : Type 0 where
    pub namespace_lacks : lacks "/" (namespace_of o) ≡ true
    pub name_lacks : lacks "/" (name_of o) ≡ true

  -- The indexer of an informer for objects with a namespace.
  pub record IsIndexed {Selector : Type 0} (indexer : Indexer Selector Object) : Type 0 where
    pub contents : List Object
    pub everything : Selector
    pub named : (o : Object) → Memᴰ o contents → IsNamed o
    pub never_fails : (k : String) → (indexer.get_by_key k).1 ≡ none
    pub present : (o : Object) → Memᴰ o contents → (indexer.get_by_key (key_of o)).0.1 ≡ true
    pub hit :
        (k : String)
        → (indexer.get_by_key k).0.1 ≡ true
        → (o : Object) × ((indexer.get_by_key k).0.0 ≡ some (of_type o))
          × Memᴰ o contents
          × (key_of o ≡ k)
    pub in_namespace : String → List Object
    pub lists :
        (ns : String)
        → ns ≢ ""
        → indexer.list_all_by_namespace ns everything ≡ (map of_type (in_namespace ns), none)
    pub in_namespace-iff :
        (ns : String) (o : Object)
        → Memᴰ o (in_namespace ns) ↔ (Memᴰ o contents × (namespace_of o ≡ ns))

  key_of-inj :
      (o : Object) (ns name : String)
      → IsNamed o
      → lacks "/" ns ≡ true
      → lacks "/" name ≡ true
      → key_of o ≡ ns <> ("/" <> name)
      → (namespace_of o ≡ ns) × (name_of o ≡ name)
  key_of-inj o ns name named ns_lacks name_lacks e =
      let same =
        sym (split-key (namespace_of o) (name_of o) named.namespace_lacks named.name_lacks)
        ∙ ap (split "/") e
        ∙ split-key ns name ns_lacks name_lacks in
      (ap first same, ap second same)

  append_all-of_type : (os : List Object) → append_all (map of_type os) ≡ ok os
  unfolding append_all
  append_all-of_type [] = refl
  append_all-of_type (o ∷ os) = rw (append_all-of_type os) refl

  got-hit :
      (missing : Error) (r : (Option (Item Object) × Bool) × Option Error) (o : Object)
      → r.1 ≡ none
      → r.0.1 ≡ true
      → r.0.0 ≡ some (of_type o)
      → got missing r ≡ ok o
  got-hit missing r o fine there is = rw fine (rw there (rw is refl))

  got-miss :
      (missing : Error) (r : (Option (Item Object) × Bool) × Option Error)
      → r.1 ≡ none
      → r.0.1 ≡ false
      → got missing r ≡ err missing
  got-miss missing r fine absent = rw fine (rw absent refl)

  -- A read by name agrees with a list of the namespace.
  abbrev pub AgreesWith : List Object → String → Error → Result Object → Type 0
  AgreesWith os name missing answer =
      ((o : Object) × (answer ≡ ok o) × Memᴰ o os × (name_of o ≡ name))
      ⊎ ((answer ≡ err missing) × ((o : Object) → Memᴰ o os → name_of o ≢ name))

  module _ {Selector : Type 0} (indexer : Indexer Selector Object) (index : IsIndexed indexer)
      (new_not_found : GroupResource → String → Error) where
    open index use {
      contents, everything, named, never_fails, present, hit, in_namespace, lists, in_namespace-iff,
    }

    -- The lister of clusters of a namespace lists, without an error, the objects that the indexer has of
    -- that namespace, and its `Get` agrees with that list: it returns an object of the list with the name
    -- that is asked for, or else the error is that the cluster is not found, and no object of the list
    -- has that name. The indexer keeps objects of one type by namespace and name, neither the names of
    -- the objects nor those that are asked for have a slash, and the namespace is not empty.
    pub get_cluster_in-AgreesWith :
        (ns name : String)
        → ns ≢ ""
        → lacks "/" ns ≡ true
        → lacks "/" name ≡ true
        → (list_clusters_in new_not_found indexer ns everything ≡ ok (in_namespace ns, none))
          × AgreesWith
              (in_namespace ns)
              name
              (new_not_found (resource "cluster") name)
              (get_cluster_in new_not_found indexer ns name)
    unfolding list_clusters_in get_cluster_in listed
    get_cluster_in-AgreesWith ns name nonempty ns_lacks name_lacks =
        let k = ns <> ("/" <> name) in
        let missing = new_not_found (resource "cluster") name in
        (
          rw (lists ns nonempty) (rw (append_all-of_type (in_namespace ns)) refl),
          elim (Bool-cases (indexer.get_by_key k).0.1) [
            | inl there ↦
                let (o, is, held, at) = hit k there in
                let (same_namespace, same_name) =
                  key_of-inj o ns name (named o held) ns_lacks name_lacks at in
                inl (
                  o,
                  got-hit missing (indexer.get_by_key k) o (never_fails k) there is,
                  (in_namespace-iff ns o).1 (held, same_namespace),
                  same_name,
                )
            | inr absent ↦ inr (
              got-miss missing (indexer.get_by_key k) (never_fails k) absent,
              λ o listed_here same_name.
                  let (held, same_namespace) = (in_namespace-iff ns o).0 listed_here in
                  let keys =
                    ap (λ a. a <> ("/" <> name_of o)) same_namespace
                    ∙ ap (λ b. ns <> ("/" <> b)) same_name in
                  let both =
                    sym (present o held) ∙ ap (λ x. (indexer.get_by_key x).0.1) keys ∙ absent in
                  ground (arith, both),
            )
          ],
        )
