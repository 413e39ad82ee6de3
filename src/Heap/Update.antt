-- ===== src/Heap/Update.antt =====
-- `heap_update` mends an array of which one entry has changed.
use mathlib.Core.List.Perm
use greenis.Prelude.{
  ℕ, zero, suc, ◌≤◌, ◌<◌, ◌≡◌, ◌≢◌, List, Perm, arith, Returns, Returns-if, Returns-map, length,
  length-set, ltb, ltb→le,
}
use greenis.Heap.{HeapItem, Heap, heap_parent, item, val, load-ok, heap_update}
use greenis.Heap.Places.{item-set}
use greenis.Heap.Order.{IsHeap, IsValid, IsBridged, Hole, Filled}
use greenis.Heap.Up.{heap_up-Filled}
use greenis.Heap.Down.{heap_down-Filled}

-- The edges that do not touch `pos` are in order, and those past it.
pub record IsLoose (a : List HeapItem) (pos : ℕ) : Type 0 where
  pub edges :
      (c : ℕ)
      → 0 < c
      → c < length a
      → c ≢ pos
      → heap_parent c ≢ pos
      → val a (heap_parent c) ≤ val a c
  pub bridged : IsBridged a pos

-- What a mended heap is: valid, with the entries of `a`.
pub record Mended (a : List HeapItem) (g : Heap) : Type 0 where
  pub valid : IsValid g
  pub same : Perm g.items a

Filled-Mended : {h g : Heap} {pos : ℕ} → Filled h pos (item h.items pos) g → Mended h.items g
Filled-Mended f = record { valid = f.valid; same = Perm.cons_inv f.same }

pub heap_update-Mended :
    (h : Heap) (pos len : ℕ)
    → len ≡ length h.items
    → Hole h pos (item h.items pos)
    → IsLoose h.items pos
    → Returns (Mended h.items) (heap_update h pos len)
unfolding heap_update
heap_update-Mended h pos len e v u =
    let a = h.items in
    let t = item a pos in
    let size = length-set a pos t in
    let old = λ (c : ℕ). item-set a pos c t v.inside in
    let inside : heap_parent pos < length a = omega (arith, v.inside) in
    let down = λ (fine : (0 < pos) → val a (heap_parent pos) ≤ t.val).
      Returns-map
        (heap_down-Filled h pos len e v (record {
          edges = λ c r s q. ground (arith, u.edges c, old c, old (heap_parent c), fine);
          bridged = λ c r s q w. ground (arith, u.bridged c, old c, old (heap_parent pos));
        }))
        λ g f. Filled-Mended f in
    rw (load-ok a (heap_parent pos) inside, load-ok a pos v.inside)
      (Returns-if (ltb 0 pos)
        (λ p.
          Returns-if (ltb t.val (val a (heap_parent pos)))
            (λ below.
              Returns-map
                (heap_up-Filled h pos v (record {
                  edges =
                      λ c r s q. ground (arith, u.edges c, u.bridged c, old c, old (heap_parent c));
                  bridged = λ c r s q w. ground (arith, u.bridged c, old c, old (heap_parent pos));
                }))
                λ g f. Filled-Mended f)
            (λ above. down λ q. ltb→le _ _ above))
        (λ root. down λ q. ground arith))

root_least_below :
    (k : ℕ) (a : List HeapItem) (i : ℕ) → IsHeap a → i < k → i < length a → val a 0 ≤ val a i
root_least_below zero a i h f p = absurd (omega arith)
root_least_below (suc k) a i h f p = ground (arith, h i, root_least_below k a (heap_parent i) h)

-- The first entry of a valid heap has the least value.
pub root_least : (h : Heap) (i : ℕ) → IsValid h → i < length h.items → val h.items 0 ≤ val h.items i
root_least h i v p = root_least_below (suc i) h.items i v.ordered (omega arith) p
