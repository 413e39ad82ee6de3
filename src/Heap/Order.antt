-- ===== src/Heap/Order.antt =====
-- What the timer heap keeps: its order, its entries, and the positions that its references point to.
use greenis.Prelude.{ℕ, ◌≤◌, ◌<◌, ◌≡◌, ◌≢◌, List, ◌∷◌, Perm, length}
use greenis.Heap.{HeapItem, Heap, heap_parent, item, val, ref}

-- Every entry is at least its parent.
abbrev pub IsHeap : List HeapItem → Type 0
IsHeap a = (c : ℕ) → 0 < c → c < length a → val a (heap_parent c) ≤ val a c

-- The reference of each entry points to the entry's position.
abbrev pub IsLinked : Heap → Type 0
IsLinked h = (i : ℕ) → i < length h.items → h.idx (ref h.items i) ≡ i

pub record IsValid (h : Heap) : Type 0 where
  pub ordered : IsHeap h.items
  pub linked : IsLinked h

-- The kids of `pos` are at least its parent.
abbrev pub IsBridged : List HeapItem → ℕ → Type 0
IsBridged a pos =
    (c : ℕ)
    → 0 < c
    → c < length a
    → heap_parent c ≡ pos
    → 0 < pos
    → val a (heap_parent pos) ≤ val a c

-- `pos` is a hole of `h` for `t`: the references of the other entries point to their positions, and
-- no other entry has the reference of `t` or that of a third entry.
pub record Hole (h : Heap) (pos : ℕ) (t : HeapItem) : Type 0 where
  pub inside : pos < length h.items
  pub linked : (i : ℕ) → i < length h.items → i ≢ pos → h.idx (ref h.items i) ≡ i
  pub fresh : (i : ℕ) → i < length h.items → i ≢ pos → ref h.items i ≢ t.ref

-- What a function that fills the hole `pos` of `h` with `t` returns.
pub record Filled (h : Heap) (pos : ℕ) (t : HeapItem) (g : Heap) : Type 0 where
  pub valid : IsValid g
  pub same : Perm (item h.items pos ∷ g.items) (t ∷ h.items)
