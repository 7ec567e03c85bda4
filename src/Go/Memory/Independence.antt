-- ===== src/Go/Memory/Independence.antt =====
-- Copies that share no memory with their originals.
use talisman.Common.{ℕ, ◌≤◌, ◌<◌, ◌≡◌, ◌∙◌, Option, some, arith}
use talisman.Go.Memory.{Heap, M}
use talisman.Go.Memory.Models.{Model}
use talisman.Go.Memory.Copies.{Copies}

-- A copy that is equal to its original and independent of it: whatever is written later into the memory
-- that was taken for the copy, the original stands for the same value, and whatever is written into
-- the memory that was there before, the copy does.
pub record Independent {Cell A V : Type 0} (D : Model Cell A V) (h : Heap Cell) (a : A) (v : V)
    (o : Option (A × Heap Cell)) : Type 0 where
  pub duplicate : A
  pub heap : Heap Cell
  pub returns : o ≡ some (duplicate, heap)
  pub equal : D.Rep heap 0 duplicate v
  pub original_kept :
      (later : Heap Cell)
      → h.next ≤ later.next
      → ((p : ℕ) → p < h.next → later.cell p ≡ heap.cell p)
      → D.Rep later 0 a v
  pub copy_kept :
      (later : Heap Cell)
      → heap.next ≤ later.next
      → ((p : ℕ) → h.next ≤ p → later.cell p ≡ heap.cell p)
      → D.Rep later 0 duplicate v

pub Copies-Independent :
    {Cell A V : Type 0} (D : Model Cell A V) (copy : A → M Cell A)
    → Copies D copy
    → (h : Heap Cell) (a : A) (v : V) → D.Rep h 0 a v
    → Independent D h a v (copy a h)
Copies-Independent D copy copies h a v r =
    let made = copies h h.next a v (omega arith) r in
    record {
      duplicate = made.value;
      heap = made.heap;
      returns = made.returns;
      equal = D.weaken made.heap h.next 0 made.value v (omega arith) made.holds;
      original_kept = λ later grows same.
          D.frame h later 0 a v
            (record {
              grows = grows;
              same = λ p above below. same p below ∙ made.extends.same p above below;
            })
            r;
      copy_kept = λ later grows same. D.weaken later h.next 0 made.value v (omega arith) (
          D.frame made.heap later h.next made.value v
            (record { grows = grows; same = λ p above below. same p above }) made.holds);
    }
