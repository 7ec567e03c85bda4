-- ===== src/Go/Memory.antt =====
-- The memory of a Go program: cells at addresses, of which new ones are taken in order.
pub mod Models
pub mod Copies
pub mod Independence
pub mod Structs
use talisman.Common.{
  ℕ, suc, ◌+◌, ◌≤◌, ◌<◌, ◌≡◌, refl, ◌∙◌, Option, none, some, List, [], ◌∷◌, Bool, eqb, arith,
  if◌then◌else◌,
}

-- A pointer or a slice: nil, or the address of what it points to.
abbrev pub Ref : Type 0
Ref = Option ℕ

module _ (Cell : Type 0) where
  pub record Heap : Type 0 where
    pub next : ℕ
    pub cell : ℕ → Option Cell

  -- `none` is the fault of reading what is no such cell.
  abbrev pub M : Type 0 → Type 0
  M A = Heap → Option (A × Heap)

module _ {Cell : Type 0} where
  abbrev pub pure : {A : Type 0} → A → M Cell A
  pure a h = some (a, h)

  abbrev pub and_then :
      {A B : Type 0} → (A → M Cell B) → Option (A × Heap Cell) → Option (B × Heap Cell)
  and_then f none = none
  and_then f (some (a, h)) = f a h

  infixl 5 ◌>>=◌ ◌>>◌
  abbrev pub ◌>>=◌ : {A B : Type 0} → M Cell A → (A → M Cell B) → M Cell B
  ◌>>=◌ m f h = and_then f (m h)

  abbrev pub ◌>>◌ : {A B : Type 0} → M Cell A → M Cell B → M Cell B
  m >> k = m >>= λ _. k

  abbrev pub write : Heap Cell → ℕ → Cell → ℕ → Option Cell
  write h p c q = if eqb p q then some c else h.cell q

  abbrev pub as_some : {A : Type 0} → Option A → Heap Cell → Option (A × Heap Cell)
  as_some none h = none
  as_some (some a) h = some (a, h)

  abbrev pub read_as : {A : Type 0} → (Cell → Option A) → Option Cell → Option A
  read_as unpack none = none
  read_as unpack (some c) = unpack c

  -- What a pointer points to.
  abbrev pub load : {A : Type 0} → (Cell → Option A) → ℕ → M Cell A
  load unpack p h = as_some (read_as unpack (h.cell p)) h

  -- `new` and `make`
  abbrev pub allocate : Cell → M Cell ℕ
  allocate c h = some (h.next, record { next = suc h.next; cell = write h h.next c })

  abbrev pub store : ℕ → Cell → M Cell (Unit {0})
  store p c h = some (tt, record h { cell = write h p c })

  -- The cells from an address on are kept.
  pub record Agree (lo : ℕ) (h h' : Heap Cell) : Type 0 where
    pub grows : h.next ≤ h'.next
    pub same : (p : ℕ) → lo ≤ p → p < h.next → h'.cell p ≡ h.cell p

  -- All that was there is kept.
  abbrev pub Extends : Heap Cell → Heap Cell → Type 0
  Extends = Agree 0

  pub Agree-refl : (lo : ℕ) (h : Heap Cell) → Agree lo h h
  Agree-refl lo h = record { grows = omega arith; same = λ p _ _. refl }

  pub Agree-trans :
      {lo : ℕ} {h h' h'' : Heap Cell} → Agree lo h h' → Agree lo h' h'' → Agree lo h h''
  Agree-trans {lo} {h} {h'} {h''} a b = record {
    grows = omega (arith, a.grows, b.grows);
    same = λ p above below. b.same p above (omega (arith, a.grows, below)) ∙ a.same p above below;
  }

  pub Extends-Agree : {h h' : Heap Cell} (lo : ℕ) → Extends h h' → Agree lo h h'
  Extends-Agree lo e = record { grows = e.grows; same = λ p _ below. e.same p (omega arith) below }

  -- The run ends, keeps all that was there, and what it returns has a property.
  pub record Ends {A : Type 0} (h : Heap Cell) (o : Option (A × Heap Cell))
      (P : Heap Cell → A → Type 0) : Type 0 where
    pub value : A
    pub heap : Heap Cell
    pub returns : o ≡ some (value, heap)
    pub extends : Extends h heap
    pub holds : P heap value

  pub pure-Ends :
      {A : Type 0} (h : Heap Cell) (a : A) (P : Heap Cell → A → Type 0)
      → P h a
      → Ends h (pure a h) P
  pure-Ends h a P p = record {
    value = a;
    heap = h;
    returns = refl;
    extends = Agree-refl 0 h;
    holds = p;
  }

  pub then-Ends :
      {A B : Type 0} (h : Heap Cell) (m : M Cell A) (f : A → M Cell B) (P : Heap Cell → A → Type 0)
      (Q : Heap Cell → B → Type 0)
      → Ends h (m h) P
      → ((a : A) (h' : Heap Cell) → Extends h h' → P h' a → Ends h' (f a h') Q)
      → Ends h ((m >>= f) h) Q
  then-Ends h m f P Q first rest =
      let next = rest first.value first.heap first.extends first.holds in
      record {
        value = next.value;
        heap = next.heap;
        returns = rw first.returns next.returns;
        extends = Agree-trans first.extends next.extends;
        holds = next.holds;
      }
