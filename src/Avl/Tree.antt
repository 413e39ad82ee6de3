-- ===== src/Avl/Tree.antt =====
-- Trees of addresses, which are what the nodes of a store stand for, and the repairs on them.
use Prim.Native.Nat.{max}
use greenis.Prelude.{
  ℕ, ◌+◌, ◌≤◌, ◌≡◌, refl, sym, ap, ◌∙◌, Bool-cases, inl, inr, List, [], ◌∷◌, ◌++◌, append_assoc,
  arith, ltb, ◌==◌, if◌then◌else◌,
}

pub data Tree : Type 0 where
  leaf : Tree
  node : Tree → ℕ → Tree → Tree

-- The pointer to a tree.
abbrev pub ptr : Tree → ℕ
ptr leaf = 0
ptr (node l p r) = p

abbrev pub height : Tree → ℕ
height leaf = 0
height (node l p r) = 1 + max (height l) (height r)

abbrev pub size : Tree → ℕ
size leaf = 0
size (node l p r) = 1 + size l + size r

-- The addresses from left to right.
abbrev pub in_order : Tree → List ℕ
in_order leaf = []
in_order (node l p r) = in_order l ++ p ∷ in_order r

abbrev pub rotate_left : Tree → Tree
rotate_left (node a p (node b q c)) = node (node a p b) q c
rotate_left t = t

abbrev pub rotate_right : Tree → Tree
rotate_right (node (node a p b) q c) = node a p (node b q c)
rotate_right t = t

-- The left subtree of the node is too high.
abbrev pub lower_left : Tree → Tree
lower_left leaf = leaf
lower_left (node leaf p r) = node leaf p r
lower_left (node (node a q b) p r) =
    rotate_right
      (node (if ltb (height a) (height b) then rotate_left (node a q b) else node a q b) p r)

abbrev pub lower_right : Tree → Tree
lower_right leaf = leaf
lower_right (node l p leaf) = node l p leaf
lower_right (node l p (node a q b)) =
    rotate_left
      (node l p (if ltb (height b) (height a) then rotate_right (node a q b) else node a q b))

unfoldable pub rebalance : Tree → Tree
rebalance leaf = leaf
rebalance (node l p r) =
    if height l == height r + 2
    then lower_left (node l p r)
    else if height l + 2 == height r
    then lower_right (node l p r)
    else node l p r

pub height-le-size : (t : Tree) → height t ≤ size t
height-le-size leaf = omega arith
height-le-size (node l p r) = omega (arith, height-le-size l, height-le-size r)

pub in_order-rotate_left : (t : Tree) → in_order (rotate_left t) ≡ in_order t
in_order-rotate_left leaf = refl
in_order-rotate_left (node a p leaf) = refl
in_order-rotate_left (node a p (node b q c)) =
    append_assoc (in_order a) (p ∷ in_order b) (q ∷ in_order c)

pub in_order-rotate_right : (t : Tree) → in_order (rotate_right t) ≡ in_order t
in_order-rotate_right leaf = refl
in_order-rotate_right (node leaf p c) = refl
in_order-rotate_right (node (node a p b) q c) =
    sym (append_assoc (in_order a) (p ∷ in_order b) (q ∷ in_order c))

in_order-lower_left : (t : Tree) → in_order (lower_left t) ≡ in_order t
in_order-lower_left leaf = refl
in_order-lower_left (node leaf p r) = refl
in_order-lower_left (node (node a q b) p r) = elim (Bool-cases (ltb (height a) (height b))) [
  | inl e ↦ rw e (
      in_order-rotate_right (node (rotate_left (node a q b)) p r)
      ∙ ap (λ l. l ++ p ∷ in_order r) (in_order-rotate_left (node a q b)))
  | inr e ↦ rw e (in_order-rotate_right (node (node a q b) p r))
]

in_order-lower_right : (t : Tree) → in_order (lower_right t) ≡ in_order t
in_order-lower_right leaf = refl
in_order-lower_right (node l p leaf) = refl
in_order-lower_right (node l p (node a q b)) = elim (Bool-cases (ltb (height b) (height a))) [
  | inl e ↦ rw e (
      in_order-rotate_left (node l p (rotate_right (node a q b)))
      ∙ ap (λ r. in_order l ++ p ∷ r) (in_order-rotate_right (node a q b)))
  | inr e ↦ rw e (in_order-rotate_left (node l p (node a q b)))
]

-- A repair keeps the addresses and their order.
pub in_order-rebalance : (t : Tree) → in_order (rebalance t) ≡ in_order t
unfolding rebalance
in_order-rebalance leaf = refl
in_order-rebalance (node l p r) = elim (Bool-cases (height l == height r + 2)) [
  | inl e ↦ rw e (in_order-lower_left (node l p r))
  | inr e ↦ elim (Bool-cases (height l + 2 == height r)) [
    | inl f ↦ rw (e, f) (in_order-lower_right (node l p r))
    | inr f ↦ rw (e, f)
  ]
]
