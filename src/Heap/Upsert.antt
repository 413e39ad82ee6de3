-- ===== src/Heap/Upsert.antt =====
-- `heap_upsert` adds an entry or replaces one.
use mathlib.Core.List.Perm
use greenis.Prelude.{
  ℕ, ◌≤◌, ◌<◌, ◌≡◌, refl, List, [], ◌∷◌, ◌++◌, Perm, arith, Returns, Returns-if, Returns-map,
  length, length-set, length-append, set, ltb, ltb→lt, ltb→le,
}
use greenis.Heap.{HeapItem, Heap, heap_parent, item, heap_upsert}
use greenis.Heap.Places.{item-set, item-append, item-append_last, last-perm, set-perm}
use greenis.Heap.Order.{IsHeap, IsValid}
use greenis.Heap.Update.{IsLoose, heap_update-Mended}

-- An entry of a valid heap is replaced by one that brings the same reference.
replaced-IsLoose :
    (a : List HeapItem) (pos : ℕ) (t : HeapItem)
    → IsHeap a
    → pos < length a
    → IsLoose (set a pos t) pos
replaced-IsLoose a pos t h p =
    let size = length-set a pos t in
    let new = λ (c : ℕ). item-set a pos c t p in
    record {
      edges = λ c q r s u. ground (arith, h c, new c, new (heap_parent c));
      bridged = λ c q r s u. ground (arith, h c, h pos, new c, new (heap_parent pos));
    }

grown-IsLoose : (a : List HeapItem) (t : HeapItem) → IsHeap a → IsLoose (a ++ t ∷ []) (length a)
grown-IsLoose a t h =
    let size = length-append a (t ∷ []) in
    let old = λ (c : ℕ). item-append a (t ∷ []) c in
    record {
      edges = λ c q r s u. ground (arith, h c, old c, old (heap_parent c));
      bridged = λ c q r s u. absurd (omega arith);
    }

-- What `heap_upsert` returns: a valid heap that has `t`, and the others unless `t` replaces one.
pub record Upserted (h : Heap) (pos : ℕ) (t : HeapItem) (g : Heap) : Type 0 where
  pub valid : IsValid g
  pub added : length h.items ≤ pos → Perm g.items (t ∷ h.items)
  pub updated : pos < length h.items → Perm (item h.items pos ∷ g.items) (t ∷ h.items)

-- `heap_upsert` at the position that the reference holds returns a valid heap: one that has the new
-- entry in place of that at the position, if there is one, and one entry more otherwise.
pub heap_upsert-Upserted :
    (h : Heap) (pos : ℕ) (t : HeapItem)
    → IsValid h
    → h.idx t.ref ≡ pos
    → Returns (Upserted h pos t) (heap_upsert h pos t)
unfolding heap_upsert
heap_upsert-Upserted h pos t v e =
    let a = h.items in
    Returns-if (ltb pos (length a))
      (λ b.
        let p : pos < length a = ltb→lt _ _ b in
        let size = length-set a pos t in
        let new = λ (c : ℕ). item-set a pos c t p in
        Returns-map
          (heap_update-Mended (record h { items = set a pos t }) pos (length a)
            (omega (arith, size))
            (record {
              inside = omega (arith, size);
              linked = λ i q r. grind (arith, v.linked i, new i);
              fresh = λ i q r. grind (arith, v.linked i, new i, new pos);
            })
            (replaced-IsLoose a pos t v.ordered p))
          λ g m. record {
            valid = m.valid;
            added = λ q. absurd (omega arith);
            updated = λ q. Perm.trans (Perm.cons _ m.same) (set-perm a pos t p);
          })
      (λ b.
        let p : length a ≤ pos = ltb→le _ _ b in
        let size = length-append a (t ∷ []) in
        let old = λ (c : ℕ). item-append a (t ∷ []) c in
        Returns-map
          (heap_update-Mended (record h { items = a ++ t ∷ [] }) (length a) _ refl
            (record {
              inside = omega (arith, size);
              linked = λ i q r. grind (arith, v.linked i, old i);
              fresh = λ i q r. grind (arith, v.linked i, old i, item-append_last a t);
            })
            (grown-IsLoose a t v.ordered))
          λ g m. record {
            valid = m.valid;
            added = λ q. Perm.trans m.same (last-perm a t);
            updated = λ q. absurd (omega arith);
          })
