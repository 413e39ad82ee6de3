-- ===== src/Heap/Up.antt =====
-- `heap_up` mends an array whose entry at `pos` may be smaller than its parent.
use greenis.Prelude.{
  ℕ, zero, suc, ◌+◌, ◌≤◌, ◌<◌, ◌≡◌, ◌≢◌, List, arith, Run, ok, Returns, returns, Returns-if,
  Returns-map, length, length-set, set, ltb, lt→ltb, ltb→lt,
}
use greenis.Heap.{HeapItem, Heap, heap_parent, item, val, point, put, load-ok, up_loop, heap_up}
use greenis.Heap.Places.{item-set, set-perm, hole-perm}
use greenis.Heap.Order.{IsHeap, IsBridged, Hole, Filled}

abbrev pub putted : Heap → ℕ → HeapItem → Heap
putted h pos x = record { items = set h.items pos x; idx = point h.idx x.ref pos }

pub put-ok :
    (h : Heap) (pos : ℕ) (x : HeapItem) → pos < length h.items → put h pos x ≡ ok (putted h pos x)
unfolding put
put-ok h pos x p = rw (lt→ltb pos (length h.items) p)

-- The hole is filled in order.
pub put-Filled :
    (h : Heap) (pos : ℕ) (t : HeapItem)
    → Hole h pos t
    → IsHeap (set h.items pos t)
    → Returns (Filled h pos t) (put h pos t)
put-Filled h pos t v order = rw (put-ok h pos t v.inside) (
    returns (record {
      valid = record {
        ordered = order;
        linked = λ i p. grind (
          arith,
          v.linked i,
          v.fresh i,
          item-set h.items pos i t v.inside,
          length-set h.items pos t,
        );
      };
      same = set-perm h.items pos t v.inside;
    }))

-- The entry at `from` moves into the hole, and leaves one where it was.
pub move-Hole :
    (h : Heap) (pos from : ℕ) (t : HeapItem)
    → Hole h pos t
    → from < length h.items
    → from ≢ pos
    → Hole (putted h pos (item h.items from)) from t
move-Hole h pos from t v p q = record {
  inside = omega (arith, length-set h.items pos (item h.items from));
  linked = λ i r s. grind (
    arith,
    v.linked i,
    v.linked from,
    item-set h.items pos i (item h.items from) v.inside,
    length-set h.items pos (item h.items from),
  );
  fresh = λ i r s. grind (
    arith,
    v.fresh i,
    v.fresh from,
    item-set h.items pos i (item h.items from) v.inside,
    length-set h.items pos (item h.items from),
  );
}

pub move-Filled :
    {h : Heap} {pos from : ℕ} {t : HeapItem} {call : Run Heap}
    → Hole h pos t
    → from ≢ pos
    → Returns (Filled (putted h pos (item h.items from)) from t) call
    → Returns (Filled h pos t) call
move-Filled {h} {pos} {from} {t} v q run = Returns-map run λ g f. record {
  valid = f.valid;
  same =
      let kept : item (set h.items pos (item h.items from)) from ≡ item h.items from =
        ground (arith, item-set h.items pos from (item h.items from) v.inside) in
      hole-perm (set-perm h.items pos (item h.items from) v.inside) (rw kept at f.same);
}

-- Only the entry in the hole may be smaller than its parent.
pub record UpInv (a : List HeapItem) (pos : ℕ) : Type 0 where
  pub edges : (c : ℕ) → 0 < c → c < length a → c ≢ pos → val a (heap_parent c) ≤ val a c
  pub bridged : IsBridged a pos

rise-UpInv :
    (a : List HeapItem) (pos : ℕ) (t : HeapItem)
    → pos < length a
    → UpInv (set a pos t) pos
    → 0 < pos
    → t.val < val a (heap_parent pos)
    → UpInv (set (set a pos (item a (heap_parent pos))) (heap_parent pos) t) (heap_parent pos)
rise-UpInv a pos t p v q below =
    let up = heap_parent pos in
    let moved = item a up in
    let size = length-set a pos t in
    let size' = length-set a pos moved in
    let size'' = length-set (set a pos moved) up t in
    let old = λ (c : ℕ). item-set a pos c t p in
    let mid = λ (c : ℕ). item-set a pos c moved p in
    let new = λ (c : ℕ). item-set (set a pos moved) up c t (omega (arith, size')) in
    record {
      edges = λ c r s u. ground (
        arith,
        v.edges c,
        v.bridged c,
        old c,
        mid c,
        new c,
        old (heap_parent c),
        mid (heap_parent c),
        new (heap_parent c),
        old up,
      );
      bridged = λ c r s u w. ground (
        arith,
        v.edges c,
        v.edges up,
        v.bridged c,
        old c,
        mid c,
        new c,
        old up,
        old (heap_parent up),
        mid (heap_parent up),
        new (heap_parent up),
      );
    }

up_loop-Filled :
    (k : ℕ) (h : Heap) (pos : ℕ) (t : HeapItem)
    → pos < k
    → Hole h pos t
    → UpInv (set h.items pos t) pos
    → Returns (Filled h pos t) (up_loop k h pos t)
unfolding up_loop
up_loop-Filled zero h pos t f v u = absurd (omega arith)
up_loop-Filled (suc k) h pos t f v u =
    let size = length-set h.items pos t in
    let old = λ (c : ℕ). item-set h.items pos c t v.inside in
    let inside : heap_parent pos < length h.items = omega (arith, v.inside) in
    rw (load-ok h.items (heap_parent pos) inside) (
      Returns-if (ltb 0 pos)
        (λ e.
          Returns-if (ltb t.val (val h.items (heap_parent pos)))
            (λ below.
              let q : heap_parent pos ≢ pos = ground arith in
              rw (put-ok h pos (item h.items (heap_parent pos)) v.inside) (
                move-Filled v q (
                  up_loop-Filled k (putted h pos (item h.items (heap_parent pos))) (heap_parent pos)
                    t (ground arith) (move-Hole h pos (heap_parent pos) t v inside q)
                    (rise-UpInv h.items pos t v.inside u (ltb→lt 0 pos e) (ltb→lt _ _ below)))))
            (λ settled.
              put-Filled h pos t v λ c r s. ground (arith, u.edges c, old c, old (heap_parent c))))
        (λ e. put-Filled h pos t v λ c r s. ground (arith, u.edges c)))

pub heap_up-Filled :
    (h : Heap) (pos : ℕ)
    → Hole h pos (item h.items pos)
    → UpInv (set h.items pos (item h.items pos)) pos
    → Returns (Filled h pos (item h.items pos)) (heap_up h pos)
unfolding heap_up
heap_up-Filled h pos v u =
    rw (load-ok h.items pos v.inside) (up_loop-Filled (pos + 1) h pos _ (omega arith) v u)
