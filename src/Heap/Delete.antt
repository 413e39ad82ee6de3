-- ===== src/Heap/Delete.antt =====
-- `heap_delete` moves the last entry to the place of the one that it removes.
use mathlib.Core.List.Perm
use greenis.Prelude.{
  ℕ, ◌-◌, ◌<◌, ◌≡◌, refl, ◌∙◌, List, ◌∷◌, Perm, arith, Returns, returns, Returns-if, Returns-map,
  length, length-set, length-take, set, take, ltb, ltb→lt, ltb→le, lt→ltb, ◌==◌, if◌then◌else◌,
}
use greenis.Heap.{HeapItem, Heap, heap_parent, item, load-ok, heap_delete}
use greenis.Heap.Places.{item-set, item-take, take-last, last-perm, set-perm}
use greenis.Heap.Order.{IsHeap, IsValid}
use greenis.Heap.Update.{IsLoose, heap_update-Mended}

-- What `heap_delete` returns: a valid heap of the other entries.
pub record Deleted (h : Heap) (pos : ℕ) (g : Heap) : Type 0 where
  pub valid : IsValid g
  pub same : Perm (item h.items pos ∷ g.items) h.items

-- The array that `heap_delete` makes before it mends it.
abbrev cut : List HeapItem → ℕ → List HeapItem
cut a pos = take (length a - 1) (set a pos (item a (length a - 1)))

length-cut : (a : List HeapItem) (pos : ℕ) → length (cut a pos) ≡ length a - 1
length-cut a pos =
    let last = item a (length a - 1) in
    omega (arith, length-take (length a - 1) (set a pos last), length-set a pos last)

item-cut :
    (a : List HeapItem) (pos c : ℕ)
    → pos < length a
    → c < length a - 1
    → item (cut a pos) c ≡ (if pos == c then item a (length a - 1) else item a c)
item-cut a pos c p q =
    item-take (length a - 1) (set a pos (item a (length a - 1))) c q
    ∙ item-set a pos c (item a (length a - 1)) p

cut-perm : (a : List HeapItem) (pos : ℕ) → pos < length a → Perm (item a pos ∷ cut a pos) a
cut-perm a pos p =
    let last = item a (length a - 1) in
    let whole = take-last (length a - 1) (set a pos last) (omega (arith, length-set a pos last)) in
    let end : item (set a pos last) (length a - 1) ≡ last =
      ground (arith, item-set a pos (length a - 1) last p) in
    let back : Perm (set a pos last) (last ∷ cut a pos) =
      rw (whole, end) at (last-perm (cut a pos) (item (set a pos last) (length a - 1))) in
    Perm.cons_inv (
      Perm.trans (Perm.swap (item a pos) last (cut a pos))
        (Perm.trans (Perm.cons (item a pos) (Perm.symm back)) (set-perm a pos last p)))

cut-IsLoose : (a : List HeapItem) (pos : ℕ) → IsHeap a → pos < length a → IsLoose (cut a pos) pos
cut-IsLoose a pos h p =
    let size = length-cut a pos in
    let new = λ (c : ℕ). item-cut a pos c p in
    record {
      edges = λ c q r s u. ground (arith, h c, new c, new (heap_parent c));
      bridged = λ c q r s u. ground (arith, h c, h pos, new c, new (heap_parent pos));
    }

-- `heap_delete` at a position of a valid heap returns a valid heap of the other entries.
pub heap_delete-Deleted :
    (h : Heap) (pos : ℕ)
    → IsValid h
    → pos < length h.items
    → Returns (Deleted h pos) (heap_delete h pos)
unfolding heap_delete
heap_delete-Deleted h pos v p =
    let a = h.items in
    let size = length-cut a pos in
    let new = λ (c : ℕ). item-cut a pos c p in
    let last : length a - 1 < length a = omega arith in
    rw (load-ok a (length a - 1) last, lt→ltb pos (length a) p)
      (Returns-if (ltb pos (length (cut a pos)))
        (λ b.
          Returns-map
            (heap_update-Mended (record h { items = cut a pos }) pos _ refl
              (record {
                inside = ltb→lt _ _ b;
                linked = λ i q r. grind (arith, v.linked i, new i, size);
                fresh = λ i q r. grind (
                  arith,
                  v.linked i,
                  v.linked (length a - 1),
                  new i,
                  new pos,
                  size,
                  ltb→lt _ _ b,
                );
              })
              (cut-IsLoose a pos v.ordered p))
            λ g m. record {
              valid = m.valid;
              same = Perm.trans (Perm.cons (item a pos) m.same) (cut-perm a pos p);
            })
        (λ b. returns (record {
          valid = record {
            ordered = λ c q r.
                ground (arith, v.ordered c, new c, new (heap_parent c), size, ltb→le _ _ b);
            linked = λ i q. ground (arith, v.linked i, new i, size, ltb→le _ _ b);
          };
          same = cut-perm a pos p;
        })))
