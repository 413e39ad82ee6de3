-- ===== src/Heap/Places.antt =====
-- The entries of the heap's array: what a write, a longer array and a shorter one keep.
use mathlib.Core.List.{perm_middle}
use mathlib.Core.List.Perm
use greenis.Prelude.{
  ℕ, zero, suc, ◌<◌, ◌≡◌, refl, ap, List, [], ◌∷◌, ◌++◌, Perm, append-nil, arith, ◌==◌,
  if◌then◌else◌, length, set, take,
}
use greenis.Heap.{HeapItem, item}

pub item-set :
    (a : List HeapItem) (i j : ℕ) (v : HeapItem)
    → i < length a
    → item (set a i v) j ≡ (if i == j then v else item a j)
unfolding item
item-set [] i j v h = absurd (omega arith)
item-set (x ∷ a) zero zero v h = refl
item-set (x ∷ a) zero (suc j) v h = ground arith
item-set (x ∷ a) (suc i) zero v h = ground arith
item-set (x ∷ a) (suc i) (suc j) v h = ground (arith, item-set a i j v)

pub item-append : (a b : List HeapItem) (i : ℕ) → i < length a → item (a ++ b) i ≡ item a i
unfolding item
item-append [] b i h = absurd (omega arith)
item-append (x ∷ a) b zero h = refl
item-append (x ∷ a) b (suc i) h = item-append a b i (omega arith)

pub item-append_last : (a : List HeapItem) (x : HeapItem) → item (a ++ x ∷ []) (length a) ≡ x
unfolding item
item-append_last [] x = refl
item-append_last (y ∷ a) x = item-append_last a x

pub item-take : (n : ℕ) (a : List HeapItem) (i : ℕ) → i < n → item (take n a) i ≡ item a i
unfolding item
item-take zero a i h = absurd (omega arith)
item-take (suc n) [] i h = refl
item-take (suc n) (x ∷ a) zero h = refl
item-take (suc n) (x ∷ a) (suc i) h = item-take n a i (omega arith)

pub take-last : (n : ℕ) (a : List HeapItem) → length a ≡ suc n → take n a ++ item a n ∷ [] ≡ a
unfolding item
take-last zero (x ∷ []) h = refl
take-last zero (x ∷ y ∷ a) h = absurd (omega arith)
take-last (suc n) (x ∷ a) h = ap (◌∷◌ x) (take-last n a (omega arith))
take-last n [] h = absurd (omega arith)

pub last-perm : (a : List HeapItem) (x : HeapItem) → Perm (a ++ x ∷ []) (x ∷ a)
last-perm a x = rw (append-nil a) at (perm_middle {a = x} a [])

-- The entry that a write drops, against the one that it brings.
pub set-perm :
    (a : List HeapItem) (i : ℕ) (v : HeapItem) → i < length a → Perm (item a i ∷ set a i v) (v ∷ a)
unfolding item
set-perm [] i v h = absurd (omega arith)
set-perm (x ∷ a) zero v h = Perm.swap v x a
set-perm (x ∷ a) (suc i) v h =
    Perm.trans (Perm.swap x _ _)
      (Perm.trans (Perm.cons x (set-perm a i v (omega arith))) (Perm.swap v x a))

-- The hole moves from one place to that of `p`, which fills it.
pub hole-perm :
    {a b r : List HeapItem} {o p t : HeapItem}
    → Perm (o ∷ b) (p ∷ a)
    → Perm (p ∷ r) (t ∷ b)
    → Perm (o ∷ r) (t ∷ a)
hole-perm {a} {b} {r} {o} {p} {t} moved rest =
    let start : Perm (p ∷ o ∷ r) (o ∷ t ∷ b) = Perm.trans (Perm.swap o p r) (Perm.cons o rest) in
    let middle : Perm (o ∷ t ∷ b) (t ∷ p ∷ a) = Perm.trans (Perm.swap t o b) (Perm.cons t moved) in
    Perm.cons_inv (Perm.trans (Perm.trans start middle) (Perm.swap p t a))
