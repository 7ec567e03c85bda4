-- ===== src/Go/Memory/Copies.antt =====
-- Copies that take new memory for all that they copy.
use talisman.Common.{ℕ, suc, ◌≤◌, ◌<◌, ◌≡◌, refl, ◌∙◌, Option, none, some, List, [], ◌∷◌, arith}
use talisman.Go.Memory.{
  Ref, Heap, M, pure, ◌>>=◌, ◌>>◌, write, load, allocate, store, Agree, Extends, Extends-Agree,
  Ends, pure-Ends, then-Ends,
}
use talisman.Go.Memory.Models.{Model, RepList-frame, list_model, ref_model}

module _ {Cell A V : Type 0} where
  -- The copy stands for the same value, in memory that was not in use before, and what was in
  -- memory is kept.
  abbrev pub Copies : Model Cell A V → (A → M Cell A) → Type 0
  Copies D copy =
      (h : Heap Cell) (lo : ℕ) (a : A) (v : V)
      → lo ≤ h.next
      → D.Rep h 0 a v
      → Ends h (copy a h) λ h' a'. D.Rep h' lo a' v

module _ {Cell A : Type 0} where
  -- A loop that copies the elements of an array one after the other.
  unfoldable pub copy_list : (A → M Cell A) → List A → M Cell (List A)
  copy_list copy [] = pure []
  copy_list copy (a ∷ xs) = do b ← copy a; ys ← copy_list copy xs; pure (b ∷ ys)

  -- A copy of what a pointer points to: `*out = new(T)`, or `make` with as many elements, and then
  -- the contents.
  unfoldable pub copy_ref :
      (A → Cell) → (Cell → Option A) → (A → A) → (A → M Cell A) → Ref → M Cell Ref
  copy_ref pack unpack zero copy none = pure none
  copy_ref pack unpack zero copy (some p) = do
    x ← load unpack p
    q ← allocate (pack (zero x))
    y ← copy x
    store q (pack y)
    pure (some q)

module _ {Cell : Type 0} where
  abbrev allocated : Heap Cell → Cell → Heap Cell
  allocated h c = record { next = suc h.next; cell = write h h.next c }

  abbrev written : Heap Cell → ℕ → Cell → Heap Cell
  written h p c = record h { cell = write h p c }

  write_below : (h : Heap Cell) (p a : ℕ) (c : Cell) → a < p → write h p c a ≡ h.cell a
  write_below h p a c below = ground arith

  write_above : (h : Heap Cell) (p a : ℕ) (c : Cell) → p < a → write h p c a ≡ h.cell a
  write_above h p a c above = ground arith

  write_self : (h : Heap Cell) (p : ℕ) (c : Cell) → write h p c p ≡ some c
  write_self h p c = ground arith

  allocate-Extends : (h : Heap Cell) (c : Cell) → Extends h (allocated h c)
  allocate-Extends h c = record {
    grows = omega arith;
    same = λ a _ below. write_below h h.next a c below;
  }

  -- The new cell is filled later; what was there before it is kept.
  fill-Extends :
      (h h' : Heap Cell) (c c' : Cell)
      → Extends (allocated h c) h'
      → Extends h (written h' h.next c')
  fill-Extends h h' c c' e = record {
    grows = omega (arith, e.grows);
    same = λ a above below.
        write_below h' h.next a c' below
        ∙ e.same a above (omega (arith, below))
        ∙ write_below h h.next a c below;
  }

  fill-Agree : (h : Heap Cell) (p : ℕ) (c : Cell) → Agree (suc p) h (written h p c)
  fill-Agree h p c = record { grows = omega arith; same = λ a above _. write_above h p a c above }

module _ {Cell A V : Type 0} (D : Model Cell A V) (copy : A → M Cell A)
    (copies : Copies D copy) where
  pub copy_list-Copies : Copies (list_model D) (copy_list copy)
  unfolding copy_list
  copy_list-Copies h lo [] [] le r = pure-Ends h [] _ tt
  copy_list-Copies h lo [] (v ∷ vs) le r = elim r [ ]
  copy_list-Copies h lo (a ∷ xs) [] le r = elim r [ ]
  copy_list-Copies h lo (a ∷ xs) (v ∷ vs) le (r, rs) =
      then-Ends h (copy a) _ _ _ (copies h lo a v le r) λ b h' e s.
        then-Ends h' (copy_list copy xs) _ _ _
          (copy_list-Copies h' lo xs vs (omega (arith, e.grows))
            (RepList-frame D h h' 0 xs vs e rs))
          λ ys h'' e' ss.
            pure-Ends h'' (b ∷ ys) _ (D.frame h' h'' lo b v (Extends-Agree lo e') s, ss)

  pub copy_ref-Copies :
      (pack : A → Cell) (unpack : Cell → Option A) (zero : A → A)
      → ((a : A) → unpack (pack a) ≡ some a)
      → Copies (ref_model pack D) (copy_ref pack unpack zero copy)
  unfolding copy_ref
  copy_ref-Copies pack unpack zero unpacks h lo none none le r = pure-Ends h none _ tt
  copy_ref-Copies pack unpack zero unpacks h lo none (some v) le r = elim r [ ]
  copy_ref-Copies pack unpack zero unpacks h lo (some p) none le r = elim r [ ]
  copy_ref-Copies pack unpack zero unpacks h lo (some p) (some v) le r =
      let q = h.next in
      let x = r.target in
      let new = allocate-Extends h (pack (zero x)) in
      let h₁ = allocated h (pack (zero x)) in
      let made = copies h₁ (suc q) x v (omega arith) (D.frame h h₁ 0 x v new r.stands) in
      let h₂ = made.heap in
      let h₃ = written h₂ q (pack made.value) in
      record {
        value = some q;
        heap = h₃;
        returns = rw r.stored (rw (unpacks x) (rw made.returns refl));
        extends = fill-Extends h h₂ (pack (zero x)) (pack made.value) made.extends;
        holds = record {
          target = made.value;
          above = le;
          below = made.extends.grows;
          stored = write_self h₂ q (pack made.value);
          stands =
              D.weaken h₃ (suc q) lo made.value v (omega (arith, le))
                (D.frame h₂ h₃ (suc q) made.value v (fill-Agree h₂ q (pack made.value)) made.holds);
        };
      }

-- The copy of a part, after other parts have been copied.
pub part-Ends :
    {Cell A V : Type 0} (D : Model Cell A V) {copy : A → M Cell A} (copies : Copies D copy)
    {h h' : Heap Cell} (lo : ℕ) (a : A) (v : V)
    → lo ≤ h.next
    → Extends h h'
    → D.Rep h 0 a v
    → Ends h' (copy a h') λ h'' a'. D.Rep h'' lo a' v
part-Ends D copies {h} {h'} lo a v le e r =
    copies h' lo a v (omega (arith, le, e.grows)) (D.frame h h' 0 a v e r)

-- What has been copied already is kept by the copies that follow.
pub keep :
    {Cell A V : Type 0} (D : Model Cell A V) {h h' : Heap Cell} (lo : ℕ) (a : A) (v : V)
    → Extends h h'
    → D.Rep h lo a v
    → D.Rep h' lo a v
keep D {h} {h'} lo a v e r = D.frame h h' lo a v (Extends-Agree lo e) r
