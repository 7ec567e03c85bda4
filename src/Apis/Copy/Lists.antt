-- ===== src/Apis/Copy/Lists.antt =====
-- pkg/apis/portworx: the copies of lists of objects, and what they have in common with the
-- originals.
use talisman.Common.{ap, ℕ, ◌≡◌, refl, ◌≤◌, ◌<◌, Option, none, some, arith}
use talisman.Go.Memory.{write, read_as, Ref, Heap, M, Ends, pure-Ends, then-Ends}
use talisman.Go.Memory.Models.{Model, plain, RepRef}
use talisman.Go.Memory.Copies.{Copies, copy_ref-Copies}
use talisman.Go.Memory.Structs.{pair_model, via_model}
use talisman.Apis.External.{External, TypeMeta, ListMeta}
use talisman.Apis.V1beta1.{ListOf}
use talisman.Apis.Cells.{Cell, as_list, list}
use talisman.Apis.Copy.{copy_items, deep_copy_list}

abbrev list_parts : {I : Type 0} → ListOf I → (TypeMeta × ListMeta) × I
list_parts l = ((l.type_meta, l.list_meta), l.items)

abbrev with_items : {V : Type 0} → ListOf Ref → V → ListOf V
with_items l vs = record { type_meta = l.type_meta; list_meta = l.list_meta; items = vs }

module _ {E : External} (h : Heap (Cell E)) where
  abbrev count_of : Option (ListOf Ref) → Option (Cell E)
  count_of none = none
  count_of (some l) = read_through l.list_meta.remaining_item_count
    where
      read_through : Ref → Option (Cell E)
      read_through none = none
      read_through (some n) = h.cell n

  -- The number of remaining items that the list at an address has in memory.
  abbrev pub count_at : Ref → Option (Cell E)
  count_at none = none
  count_at (some p) = count_of (read_as as_list (h.cell p))

-- The copy of a list is a new list with new items, whose pointer to the number of remaining items is that
-- of the original.
pub record SharedCopy {E : External} {V : Type 0} (D : Model (Cell E) Ref V) (h : Heap (Cell E))
    (l : ListOf Ref) (vs : V) (h' : Heap (Cell E)) (r : Ref) : Type 0 where
  pub address : ℕ
  pub copy : ListOf Ref
  pub returned : r ≡ some address
  pub new : h.next ≤ address
  pub stored : h'.cell address ≡ some (list copy)
  pub same_count : copy.list_meta.remaining_item_count ≡ l.list_meta.remaining_item_count
  pub new_items : D.Rep h' h.next copy.items vs

module _ {E : External} {V : Type 0} (D : Model (Cell E) Ref V) (copy : Ref → M (Cell E) Ref)
    (copies : Copies D copy) where
  abbrev list_of : Model (Cell E) (ListOf Ref) (ListOf V)
  list_of = via_model list_parts list_parts (pair_model plain D)

  copy_items-Copies : Copies list_of (copy_items copy)
  copy_items-Copies h lo l v le (header, stands) =
      then-Ends h (copy l.items) _ _ _ (copies h lo l.items v.items le stands)
        λ is h' e s. pure-Ends h' _ _ (header, s)

  shared :
      (h h' : Heap (Cell E)) (l : ListOf Ref) (vs : V) (r : Ref)
      → RepRef list list_of h' h.next r (some (with_items l vs))
      → SharedCopy D h l vs h' r
  shared h h' l vs none stands = elim stands [ ]
  shared h h' l vs (some q) stands = record {
    address = q;
    copy = stands.target;
    returned = refl;
    new = stands.above;
    stored = stands.stored;
    same_count = ap (λ x. x.1.remaining_item_count) stands.stands.0;
    new_items = stands.stands.1;
  }

  pub deep_copy_list-SharedCopy :
      (h : Heap (Cell E)) (p : ℕ) (l : ListOf Ref) (vs : V)
      → p < h.next
      → h.cell p ≡ some (list l)
      → D.Rep h 0 l.items vs
      → Ends h (deep_copy_list (copy_items copy) (some p) h) (SharedCopy D h l vs)
  unfolding deep_copy_list
  deep_copy_list-SharedCopy h p l vs below is_list stands =
      let made =
        copy_ref-Copies list_of (copy_items copy) copy_items-Copies list _ _ (λ a. refl) h h.next
          (some p) (some (with_items l vs)) (omega arith)
          (record {
            target = l;
            above = omega arith;
            below = below;
            stored = is_list;
            stands = (refl, stands);
          }) in
      record {
        value = made.value;
        heap = made.heap;
        returns = made.returns;
        extends = made.extends;
        holds = shared h made.heap l vs made.value made.holds;
      }

-- Whatever is written to an address, the lists at two others have it as their number of remaining items.
abbrev pub ShareCount : {E : External} → ℕ → Ref → Ref → Heap (Cell E) → Type 0
ShareCount {E} n r r' h =
    (x : Cell E)
    → let later = record h { cell = write h n x } in
      (count_at later r ≡ some x) × (count_at later r' ≡ some x)
