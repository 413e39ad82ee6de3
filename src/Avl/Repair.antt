-- ===== src/Avl/Repair.antt =====
-- What a repair of one node keeps, and the repairs from a node up to the root.
use greenis.Prelude.{
  ℕ, suc, ◌+◌, ◌≤◌, ◌≡◌, refl, ap, ◌∙◌, inl, inr, [], ◌∷◌, ◌++◌, arith, Bool-cases, ltb, ◌==◌,
}
use greenis.Avl.Tree.{
  Tree, leaf, node, height, size, in_order, rotate_left, rotate_right, lower_left, lower_right,
  rebalance, in_order-rebalance,
}
use greenis.Avl.Store.{Ranked}
use greenis.Avl.Way.{on_left, on_right, Way, close, plug}

-- Repairs from a subtree up to the root.
abbrev pub fix_up : Tree → Way → Tree
fix_up t [] = rebalance t
fix_up t (f ∷ c) = fix_up (close f (rebalance t)) c

-- The tree after the repair of its subtree `t`.
abbrev pub climbed : Tree → Way → Tree
climbed t [] = t
climbed t (f ∷ c) = fix_up (close f t) c

pub fix_up-climbed : (t : Tree) (c : Way) → fix_up t c ≡ climbed (rebalance t) c
fix_up-climbed t [] = refl
fix_up-climbed t (f ∷ c) = refl

size-rotate_left : (t : Tree) → size (rotate_left t) ≡ size t
size-rotate_left leaf = refl
size-rotate_left (node a p leaf) = refl
size-rotate_left (node a p (node b q c)) = omega arith

size-rotate_right : (t : Tree) → size (rotate_right t) ≡ size t
size-rotate_right leaf = refl
size-rotate_right (node leaf p c) = refl
size-rotate_right (node (node a p b) q c) = omega arith

pub size-rebalance : (t : Tree) → size (rebalance t) ≡ size t
unfolding rebalance
size-rebalance leaf = refl
size-rebalance (node l p r) = ground (arith, size-lower_left l p r, size-lower_right l p r)
  where
    size-lower_left :
        (l : Tree) (p : ℕ) (r : Tree) → size (lower_left (node l p r)) ≡ 1 + size l + size r
    size-lower_left leaf p r = refl
    size-lower_left (node a q b) p r = elim (Bool-cases (ltb (height a) (height b))) [
      | inl e ↦ rw e (
          omega (
            arith,
            size-rotate_right (node (rotate_left (node a q b)) p r),
            size-rotate_left (node a q b),
          ))
      | inr e ↦ rw e (omega (arith, size-rotate_right (node (node a q b) p r)))
    ]

    size-lower_right :
        (l : Tree) (p : ℕ) (r : Tree) → size (lower_right (node l p r)) ≡ 1 + size l + size r
    size-lower_right l p leaf = refl
    size-lower_right l p (node a q b) = elim (Bool-cases (ltb (height b) (height a))) [
      | inl e ↦ rw e (
          omega (
            arith,
            size-rotate_left (node l p (rotate_right (node a q b))),
            size-rotate_right (node a q b),
          ))
      | inr e ↦ rw e (omega (arith, size-rotate_left (node l p (node a q b))))
    ]

pub size-plug : (t t' : Tree) (c : Way) → size t ≡ size t' → size (plug t c) ≡ size (plug t' c)
size-plug t t' [] e = e
size-plug t t' (on_left p r ∷ c) e = size-plug (node t p r) (node t' p r) c (omega arith)
size-plug t t' (on_right l p ∷ c) e = size-plug (node l p t) (node l p t') c (omega arith)

pub size-le-plug : (t : Tree) (c : Way) → size t ≤ size (plug t c)
size-le-plug t [] = omega arith
size-le-plug t (on_left p r ∷ c) = omega (arith, size-le-plug (node t p r) c)
size-le-plug t (on_right l p ∷ c) = omega (arith, size-le-plug (node l p t) c)

pub in_order-plug :
    (t t' : Tree) (c : Way) → in_order t ≡ in_order t' → in_order (plug t c) ≡ in_order (plug t' c)
in_order-plug t t' [] e = e
in_order-plug t t' (on_left p r ∷ c) e =
    in_order-plug (node t p r) (node t' p r) c (ap (λ x. x ++ p ∷ in_order r) e)
in_order-plug t t' (on_right l p ∷ c) e =
    in_order-plug (node l p t) (node l p t') c (ap (λ x. in_order l ++ p ∷ x) e)

-- The repairs keep the addresses and their order.
pub in_order-fix_up : (t : Tree) (c : Way) → in_order (fix_up t c) ≡ in_order (plug t c)
in_order-fix_up t [] = in_order-rebalance t
in_order-fix_up t (on_left p r ∷ c) =
    in_order-fix_up (node (rebalance t) p r) c
    ∙ in_order-plug (node (rebalance t) p r) (node t p r) c
        (ap (λ x. x ++ p ∷ in_order r) (in_order-rebalance t))
in_order-fix_up t (on_right l p ∷ c) =
    in_order-fix_up (node l p (rebalance t)) c
    ∙ in_order-plug (node l p (rebalance t)) (node l p t) c
        (ap (λ x. in_order l ++ p ∷ x) (in_order-rebalance t))

module _ (rank : ℕ → ℕ) where
  Ranked-rotate_left :
      (lo : ℕ) (t : Tree) (hi : ℕ) → Ranked rank lo t hi → Ranked rank lo (rotate_left t) hi
  Ranked-rotate_left lo leaf hi h = h
  Ranked-rotate_left lo (node a p leaf) hi h = h
  Ranked-rotate_left lo (node a p (node b q c)) hi h = ((h.0, h.1.0), h.1.1)

  Ranked-rotate_right :
      (lo : ℕ) (t : Tree) (hi : ℕ) → Ranked rank lo t hi → Ranked rank lo (rotate_right t) hi
  Ranked-rotate_right lo leaf hi h = h
  Ranked-rotate_right lo (node leaf p c) hi h = h
  Ranked-rotate_right lo (node (node a p b) q c) hi h = (h.0.0, (h.0.1, h.1))

  Ranked-lower_left :
      (lo : ℕ) (t : Tree) (hi : ℕ) → Ranked rank lo t hi → Ranked rank lo (lower_left t) hi
  Ranked-lower_left lo leaf hi h = h
  Ranked-lower_left lo (node leaf p r) hi h = h
  Ranked-lower_left lo (node (node a q b) p r) hi h =
      elim (Bool-cases (ltb (height a) (height b))) [
        | inl e ↦ rw e (
            Ranked-rotate_right lo (node (rotate_left (node a q b)) p r) hi
              (Ranked-rotate_left lo (node a q b) (rank p) h.0, h.1))
        | inr e ↦ rw e (Ranked-rotate_right lo (node (node a q b) p r) hi h)
      ]

  Ranked-lower_right :
      (lo : ℕ) (t : Tree) (hi : ℕ) → Ranked rank lo t hi → Ranked rank lo (lower_right t) hi
  Ranked-lower_right lo leaf hi h = h
  Ranked-lower_right lo (node l p leaf) hi h = h
  Ranked-lower_right lo (node l p (node a q b)) hi h =
      elim (Bool-cases (ltb (height b) (height a))) [
        | inl e ↦ rw e (
            Ranked-rotate_left lo (node l p (rotate_right (node a q b))) hi
              (h.0, Ranked-rotate_right (suc (rank p)) (node a q b) hi h.1))
        | inr e ↦ rw e (Ranked-rotate_left lo (node l p (node a q b)) hi h)
      ]

  pub Ranked-rebalance :
      (lo : ℕ) (t : Tree) (hi : ℕ) → Ranked rank lo t hi → Ranked rank lo (rebalance t) hi
  unfolding rebalance
  Ranked-rebalance lo leaf hi h = h
  Ranked-rebalance lo (node l p r) hi h = elim (Bool-cases (height l == height r + 2)) [
    | inl e ↦ rw e (Ranked-lower_left lo (node l p r) hi h)
    | inr e ↦ elim (Bool-cases (height l + 2 == height r)) [
      | inl f ↦ rw (e, f) (Ranked-lower_right lo (node l p r) hi h)
      | inr f ↦ rw (e, f) h
    ]
  ]
