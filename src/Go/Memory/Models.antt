-- ===== src/Go/Memory/Models.antt =====
-- Data in memory and the values that it stands for.
use talisman.Common.{ℕ, ◌≤◌, ◌<◌, ◌≡◌, ◌∙◌, Option, none, some, List, [], ◌∷◌, arith}
use talisman.Go.Memory.{Ref, Heap, Agree}

-- How data of a type stands for a value: all that it points to lies at or above an address, and only
-- the memory from there on matters.
pub record Model (Cell A V : Type 0) : Type 1 where
  pub Rep : Heap Cell → ℕ → A → V → Type 0
  pub frame :
      (h h' : Heap Cell) (lo : ℕ) (a : A) (v : V) → Agree lo h h' → Rep h lo a v → Rep h' lo a v
  pub weaken :
      (h : Heap Cell) (lo lo' : ℕ) (a : A) (v : V) → lo' ≤ lo → Rep h lo a v → Rep h lo' a v

-- Data without pointers.
abbrev pub plain : {Cell A : Type 0} → Model Cell A A
plain = record {
  Rep = λ h lo a v. a ≡ v;
  frame = λ h h' lo a v _ e. e;
  weaken = λ h lo lo' a v _ e. e;
}

module _ {Cell A V : Type 0} where
  -- The elements of an array, each with its own value.
  abbrev pub RepList : Model Cell A V → Heap Cell → ℕ → List A → List V → Type 0
  RepList D h lo [] [] = Unit
  RepList D h lo (a ∷ as') (v ∷ vs) = D.Rep h lo a v × RepList D h lo as' vs
  RepList D h lo _ _ = ⊥

  pub RepList-frame :
      (D : Model Cell A V) (h h' : Heap Cell) (lo : ℕ) (xs : List A) (vs : List V)
      → Agree lo h h'
      → RepList D h lo xs vs
      → RepList D h' lo xs vs
  RepList-frame D h h' lo [] [] same r = tt
  RepList-frame D h h' lo [] (v ∷ vs) same r = elim r [ ]
  RepList-frame D h h' lo (a ∷ xs) [] same r = elim r [ ]
  RepList-frame D h h' lo (a ∷ xs) (v ∷ vs) same (r, rs) =
      (D.frame h h' lo a v same r, RepList-frame D h h' lo xs vs same rs)

  pub RepList-weaken :
      (D : Model Cell A V) (h : Heap Cell) (lo lo' : ℕ) (xs : List A) (vs : List V)
      → lo' ≤ lo
      → RepList D h lo xs vs
      → RepList D h lo' xs vs
  RepList-weaken D h lo lo' [] [] le r = tt
  RepList-weaken D h lo lo' [] (v ∷ vs) le r = elim r [ ]
  RepList-weaken D h lo lo' (a ∷ xs) [] le r = elim r [ ]
  RepList-weaken D h lo lo' (a ∷ xs) (v ∷ vs) le (r, rs) =
      (D.weaken h lo lo' a v le r, RepList-weaken D h lo lo' xs vs le rs)

  abbrev pub list_model : Model Cell A V → Model Cell (List A) (List V)
  list_model D = record { Rep = RepList D; frame = RepList-frame D; weaken = RepList-weaken D }

  -- What a pointer points to.
  pub record Points (pack : A → Cell) (D : Model Cell A V) (h : Heap Cell) (lo p : ℕ) (v : V)
      : Type 0 where
    pub target : A
    pub above : lo ≤ p
    pub below : p < h.next
    pub stored : h.cell p ≡ some (pack target)
    pub stands : D.Rep h lo target v

  abbrev pub RepRef : (A → Cell) → Model Cell A V → Heap Cell → ℕ → Ref → Option V → Type 0
  RepRef pack D h lo none none = Unit
  RepRef pack D h lo (some p) (some v) = Points pack D h lo p v
  RepRef pack D h lo _ _ = ⊥

  pub RepRef-frame :
      (pack : A → Cell) (D : Model Cell A V) (h h' : Heap Cell) (lo : ℕ) (r : Ref) (v : Option V)
      → Agree lo h h'
      → RepRef pack D h lo r v
      → RepRef pack D h' lo r v
  RepRef-frame pack D h h' lo none none same r = tt
  RepRef-frame pack D h h' lo none (some v) same r = elim r [ ]
  RepRef-frame pack D h h' lo (some p) none same r = elim r [ ]
  RepRef-frame pack D h h' lo (some p) (some v) same r = record {
    target = r.target;
    above = r.above;
    below = omega (arith, r.below, same.grows);
    stored = same.same p r.above r.below ∙ r.stored;
    stands = D.frame h h' lo r.target v same r.stands;
  }

  pub RepRef-weaken :
      (pack : A → Cell) (D : Model Cell A V) (h : Heap Cell) (lo lo' : ℕ) (r : Ref) (v : Option V)
      → lo' ≤ lo
      → RepRef pack D h lo r v
      → RepRef pack D h lo' r v
  RepRef-weaken pack D h lo lo' none none le r = tt
  RepRef-weaken pack D h lo lo' none (some v) le r = elim r [ ]
  RepRef-weaken pack D h lo lo' (some p) none le r = elim r [ ]
  RepRef-weaken pack D h lo lo' (some p) (some v) le r = record {
    target = r.target;
    above = omega (arith, r.above);
    below = r.below;
    stored = r.stored;
    stands = D.weaken h lo lo' r.target v le r.stands;
  }

  -- A pointer, or a slice with its array.
  abbrev pub ref_model : (A → Cell) → Model Cell A V → Model Cell Ref (Option V)
  ref_model pack D = record {
    Rep = RepRef pack D;
    frame = RepRef-frame pack D;
    weaken = RepRef-weaken pack D;
  }
