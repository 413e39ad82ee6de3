-- ===== src/Heap.antt =====
-- The timer heap: inc/server/heap.h and lib/server/heap.cpp. A back reference `ref` is a number, and
-- what it points to, the `heap_idx` of an entry, is the value of `idx` there. A read or a write outside
-- the array is a fault. Positions stay far below 2 ^ 63, so those of the children do not wrap around.
pub mod Places
pub mod Order
pub mod Up
pub mod Down
pub mod Update
pub mod Upsert
pub mod Delete
use greenis.Prelude.{
  ℕ, zero, suc, ◌+◌, ◌-◌, ◌*◌, ◌/◌, ◌≡◌, refl, Bool, List, [], ◌∷◌, ◌++◌, Option, none, some, arith,
  Run, ok, fault, out_of_fuel, ◌>>=◌, require, ltb, ◌==◌, if◌then◌else◌, length, get_elem?, set,
  take, ◌<◌,
}

pub record HeapItem : Type 0 where
  pub val : ℕ
  pub ref : ℕ

-- The vector of the heap and the store that its references point into.
pub record Heap : Type 0 where
  pub items : List HeapItem
  pub idx : ℕ → ℕ

abbrev pub heap_parent : ℕ → ℕ
heap_parent i = (i + 1) / 2 - 1

abbrev pub heap_left : ℕ → ℕ
heap_left i = i * 2 + 1

abbrev pub heap_right : ℕ → ℕ
heap_right i = i * 2 + 2

-- `a[i]`
unfoldable pub load : List HeapItem → ℕ → Run HeapItem
load a i = require (get_elem? a i)

-- `*ref = pos`
abbrev pub point : (ℕ → ℕ) → ℕ → ℕ → ℕ → ℕ
point idx r pos q = if q == r then pos else idx q

-- `a[pos] = x; *a[pos].ref = pos;`
unfoldable pub put : Heap → ℕ → HeapItem → Run Heap
put h pos x =
    if ltb pos (length h.items)
    then ok (record { items = set h.items pos x; idx = point h.idx x.ref pos })
    else fault

unfoldable pub up_loop : ℕ → Heap → ℕ → HeapItem → Run Heap
up_loop zero h pos t = out_of_fuel
up_loop (suc k) h pos t =
    let rise : HeapItem → Run Heap = λ p. put h pos p >>= λ g. up_loop k g (heap_parent pos) t in
    let step : Run Heap =
      load h.items (heap_parent pos) >>= λ p. if ltb t.val p.val then rise p else put h pos t in
    if ltb 0 pos then step else put h pos t

unfoldable pub heap_up : Heap → ℕ → Run Heap
heap_up h pos = load h.items pos >>= λ t. up_loop (pos + 1) h pos t

-- The position of the smallest of `pos`, whose value is `v`, and its kids.
unfoldable pub min_pos : List HeapItem → ℕ → ℕ → ℕ → Run ℕ
min_pos a len pos v =
    let l = heap_left pos in
    let r = heap_right pos in
    let left : Run (ℕ × ℕ) =
      if ltb l len
      then (load a l >>= λ x. ok (if ltb x.val v then (l, x.val) else (pos, v)))
      else ok (pos, v) in
    left >>= λ m.
    if ltb r len then (load a r >>= λ y. ok (if ltb y.val m.1 then r else m.0)) else ok m.0

unfoldable pub down_loop : ℕ → Heap → ℕ → ℕ → HeapItem → Run Heap
down_loop zero h pos len t = out_of_fuel
down_loop (suc k) h pos len t =
    let sink : ℕ → Run Heap =
      λ m. load h.items m >>= λ x. put h pos x >>= λ g. down_loop k g m len t in
    min_pos h.items len pos t.val >>= λ m. if m == pos then put h pos t else sink m

unfoldable pub heap_down : Heap → ℕ → ℕ → Run Heap
heap_down h pos len = load h.items pos >>= λ t. down_loop (len + 1) h pos len t

unfoldable pub heap_update : Heap → ℕ → ℕ → Run Heap
heap_update h pos len =
    let above : Run Heap = load h.items (heap_parent pos) >>= λ p.
    load h.items pos >>= λ t. if ltb t.val p.val then heap_up h pos else heap_down h pos len in
    if ltb 0 pos then above else heap_down h pos len

-- `a[pos] = a.back(); a.pop_back();`
unfoldable pub heap_delete : Heap → ℕ → Run Heap
heap_delete h pos =
    let last = length h.items - 1 in
    load h.items last >>= λ b.
    let g : Heap = record h { items = take last (set h.items pos b) } in
    let mend : Run Heap =
      if ltb pos (length g.items) then heap_update g pos (length g.items) else ok g in
    if ltb pos (length h.items) then mend else fault

unfoldable pub heap_upsert : Heap → ℕ → HeapItem → Run Heap
heap_upsert h pos t =
    let grown : Heap = record h { items = h.items ++ t ∷ [] } in
    if ltb pos (length h.items)
    then heap_update (record h { items = set h.items pos t }) pos (length h.items)
    else heap_update grown (length h.items) (length grown.items)

-- The entry at a position, or nothing of use past the end.
unfoldable pub item : List HeapItem → ℕ → HeapItem
item [] i = record { val = 0; ref = 0 }
item (x ∷ a) zero = x
item (x ∷ a) (suc i) = item a i

abbrev pub val : List HeapItem → ℕ → ℕ
val a i = (item a i).val

abbrev pub ref : List HeapItem → ℕ → ℕ
ref a i = (item a i).ref

pub load-ok : (a : List HeapItem) (i : ℕ) → i < length a → load a i ≡ ok (item a i)
unfolding load item
load-ok [] i h = absurd (omega arith)
load-ok (x ∷ a) zero h = refl
load-ok (x ∷ a) (suc i) h = load-ok a i (omega arith)
