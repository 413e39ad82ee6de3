-- ===== src/Heap/Down.antt =====
-- `heap_down` mends an array whose entry at `pos` may be larger than its kids.
use greenis.Prelude.{
  ℕ, zero, suc, ◌+◌, ◌-◌, ◌≤◌, ◌<◌, ◌≡◌, ◌≢◌, ◌⊎◌, List, arith, Returns, returns, Returns-if,
  Returns-bind, length, length-set, set, ltb, ltb→lt, ltb→le, ◌==◌, if◌then◌else◌,
}
use greenis.Heap.{
  HeapItem, Heap, heap_parent, heap_left, heap_right, item, val, load-ok, min_pos, down_loop,
  heap_down,
}
use greenis.Heap.Places.{item-set}
use greenis.Heap.Order.{IsBridged, Hole, Filled}
use greenis.Heap.Up.{putted, put-ok, put-Filled, move-Hole, move-Filled}

-- Only the entry in the hole may be larger than its kids.
pub record DownInv (a : List HeapItem) (pos : ℕ) : Type 0 where
  pub edges : (c : ℕ) → 0 < c → c < length a → heap_parent c ≢ pos → val a (heap_parent c) ≤ val a c
  pub bridged : IsBridged a pos

-- `m` is `pos` or a kid of it, and no kid has a smaller value; `pos` counts with the value `v`.
record IsMin (a : List HeapItem) (pos v m : ℕ) : Type 0 where
  choice :
      (m ≡ pos) ⊎ ((m < length a) × (val a m < v) × ((m ≡ heap_left pos) ⊎ (m ≡ heap_right pos)))
  least :
      (c : ℕ)
      → 0 < c
      → c < length a
      → heap_parent c ≡ pos
      → (if m == pos then v else val a m) ≤ val a c

-- The smaller of `pos` and the left kid, with its value.
abbrev IsLeftMin : List HeapItem → ℕ → ℕ → ℕ × ℕ → Type 0
IsLeftMin a pos v m =
    ((m.0 ≡ pos) × (m.1 ≡ v) × (heap_left pos < length a → v ≤ val a (heap_left pos)))
    ⊎ ((m.0 ≡ heap_left pos)
        × (m.1 ≡ val a (heap_left pos))
        × (heap_left pos < length a)
        × (val a (heap_left pos) < v))

kid_places : (c pos : ℕ) → 0 < c → heap_parent c ≡ pos → (c ≡ heap_left pos) ⊎ (c ≡ heap_right pos)
kid_places c pos p e = omega arith

right-IsMin :
    (a : List HeapItem) (pos v : ℕ) (m : ℕ × ℕ)
    → IsLeftMin a pos v m
    → heap_right pos < length a
    → IsMin a pos v (if ltb (val a (heap_right pos)) m.1 then heap_right pos else m.0)
right-IsMin a pos v m s p = record {
  choice = ground arith;
  least = λ c q r e. ground (arith, kid_places c pos q e);
}

alone-IsMin :
    (a : List HeapItem) (pos v : ℕ) (m : ℕ × ℕ)
    → IsLeftMin a pos v m
    → length a ≤ heap_right pos
    → IsMin a pos v m.0
alone-IsMin a pos v m s p = record {
  choice = ground arith;
  least = λ c q r e. ground (arith, kid_places c pos q e);
}

min_pos-IsMin :
    (a : List HeapItem) (pos v : ℕ) → Returns (IsMin a pos v) (min_pos a (length a) pos v)
unfolding min_pos
min_pos-IsMin a pos v =
    Returns-bind {P = IsLeftMin a pos v}
      (Returns-if (ltb (heap_left pos) (length a))
        (λ p. rw (load-ok a (heap_left pos) (ltb→lt _ _ p)) (returns (ground arith)))
        (λ p. returns (ground arith)))
      λ m s.
        Returns-if (ltb (heap_right pos) (length a))
          (λ p.
            rw (load-ok a (heap_right pos) (ltb→lt _ _ p))
              (returns (right-IsMin a pos v m s (ltb→lt _ _ p))))
          (λ p. returns (alone-IsMin a pos v m s (ltb→le _ _ p)))

min_pos-of_length :
    (a : List HeapItem) (len pos v : ℕ)
    → len ≡ length a
    → Returns (IsMin a pos v) (min_pos a len pos v)
min_pos-of_length a len pos v e = rw e (min_pos-IsMin a pos v)

sink-DownInv :
    (a : List HeapItem) (pos m : ℕ) (t : HeapItem)
    → pos < length a
    → DownInv (set a pos t) pos
    → IsMin a pos t.val m
    → m ≢ pos
    → DownInv (set (set a pos (item a m)) m t) m
sink-DownInv a pos m t p v s q =
    let moved = item a m in
    let size = length-set a pos t in
    let size' = length-set a pos moved in
    let size'' = length-set (set a pos moved) m t in
    let inside : m < length a = ground (arith, s.choice) in
    let old = λ (c : ℕ). item-set a pos c t p in
    let mid = λ (c : ℕ). item-set a pos c moved p in
    let new = λ (c : ℕ). item-set (set a pos moved) m c t (omega (arith, size')) in
    record {
      edges = λ c r l u. ground (
        arith,
        v.edges c,
        v.bridged m,
        s.choice,
        s.least c,
        old c,
        mid c,
        new c,
        old (heap_parent c),
        mid (heap_parent c),
        new (heap_parent c),
        old m,
      );
      bridged = λ c r l u w. ground (
        arith,
        v.edges c,
        v.edges m,
        s.choice,
        old c,
        mid c,
        new c,
        old m,
        old (heap_parent m),
        mid (heap_parent m),
        new (heap_parent m),
      );
    }

down_loop-Filled :
    (k : ℕ) (h : Heap) (pos len : ℕ) (t : HeapItem)
    → len - pos < k
    → len ≡ length h.items
    → Hole h pos t
    → DownInv (set h.items pos t) pos
    → Returns (Filled h pos t) (down_loop k h pos len t)
unfolding down_loop
down_loop-Filled zero h pos len t f e v u = absurd (omega arith)
down_loop-Filled (suc k) h pos len t f e v u =
    let size = length-set h.items pos t in
    let old = λ (c : ℕ). item-set h.items pos c t v.inside in
    Returns-bind (min_pos-of_length h.items len pos t.val e) λ m s.
      Returns-if (m == pos)
        (λ stay.
          put-Filled h pos t v
            λ c r l. ground (arith, u.edges c, s.least c, old c, old (heap_parent c)))
        (λ go.
          let q : m ≢ pos = ground arith in
          let inside : m < length h.items = ground (arith, s.choice) in
          rw (load-ok h.items m inside, put-ok h pos (item h.items m) v.inside)
            (move-Filled v q (
              down_loop-Filled k (putted h pos (item h.items m)) m len t
                (ground (arith, s.choice, v.inside))
                (omega (arith, length-set h.items pos (item h.items m)))
                (move-Hole h pos m t v inside q) (sink-DownInv h.items pos m t v.inside u s q))))

pub heap_down-Filled :
    (h : Heap) (pos len : ℕ)
    → len ≡ length h.items
    → Hole h pos (item h.items pos)
    → DownInv (set h.items pos (item h.items pos)) pos
    → Returns (Filled h pos (item h.items pos)) (heap_down h pos len)
unfolding heap_down
heap_down-Filled h pos len e v u =
    rw (load-ok h.items pos v.inside) (down_loop-Filled (len + 1) h pos len _ (omega arith) e v u)
