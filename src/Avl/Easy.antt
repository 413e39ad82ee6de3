-- ===== src/Avl/Easy.antt =====
-- `avl_del_easy` on a balanced tree of distinct nodes.
use greenis.Prelude.{
  ℕ, ◌+◌, ◌^◌, ◌≤◌, ◌<◌, ◌≡◌, ◌⊎◌, inl, inr, refl, sym, ◌∙◌, [], ◌∷◌, ◌++◌, append-nil, arith,
  Distinct, Returns, length,
}
use greenis.Avl.{Nodes, avl_del_easy}
use greenis.Avl.Tree.{Tree, leaf, node, ptr, height, size, in_order}
use greenis.Avl.Store.{Rep, Turned}
use greenis.Avl.Way.{on_left, on_right, Way, plug, plug-Split}
use greenis.Avl.Repair.{climbed, in_order-fix_up}
use greenis.Avl.Remove.{only, avl_del_easy-Turned}
use greenis.Avl.Balance.{IsAvl, Replaced, plug-BalancedPath, climbed-IsAvl}
use greenis.Avl.Rank.{index_of, in_order-Ranked}
use greenis.Avl.Place.{before, after, in_order-parts, length-le-size, plug-Placed}

pub in_order-climbed :
    (t : Tree) (c : Way) → in_order (climbed t c) ≡ before c ++ (in_order t ++ after c)
in_order-climbed t [] = sym (append-nil (in_order t))
in_order-climbed t (f ∷ c) = in_order-fix_up _ c ∙ in_order-parts t (f ∷ c)

-- One of the subtrees is empty.
pub data OneChild : Tree → Tree → Type 0 where
  no_left : (r : Tree) → OneChild leaf r
  no_right : (l : Tree) → OneChild l leaf

pub in_order-only : (l r : Tree) → OneChild l r → in_order (only l r) ≡ in_order l ++ in_order r
in_order-only leaf r (no_left _) = refl
in_order-only leaf leaf (no_right _) = refl
in_order-only (node a q b) leaf (no_right _) = sym (append-nil (in_order (node a q b)))
in_order-only (node a q b) (node _ _ _) one = elim one [ ]

only-Replaced :
    (l : Tree) (p : ℕ) (r : Tree)
    → OneChild l r
    → IsAvl (node l p r)
    → Replaced (height (node l p r)) (only l r)
only-Replaced leaf p r (no_left _) h = record { balanced = h.1; near = (omega arith, omega arith) }
only-Replaced leaf p leaf (no_right _) h = record {
  balanced = tt;
  near = (omega arith, omega arith);
}
only-Replaced (node a q b) p leaf (no_right _) h = record {
  balanced = h.0;
  near = (omega (arith, h.2), omega arith);
}
only-Replaced (node a q b) p (node _ _ _) one h = elim one [ ]

size-only : (l r : Tree) → size (only l r) ≤ size l + size r
size-only leaf r = omega arith
size-only (node a q b) r = omega arith

one-ptr : (l r : Tree) → OneChild l r → (ptr l ≡ 0) ⊎ (ptr r ≡ 0)
one-ptr leaf r (no_left _) = inl refl
one-ptr l leaf (no_right _) = inr refl

size-plug-le : (t t' : Tree) (c : Way) → size t ≤ size t' → size (plug t c) ≤ size (plug t' c)
size-plug-le t t' [] e = e
size-plug-le t t' (on_left p r ∷ c) e = size-plug-le (node t p r) (node t' p r) c (omega arith)
size-plug-le t t' (on_right l p ∷ c) e = size-plug-le (node l p t) (node l p t') c (omega arith)

-- The tree after `avl_del_easy`.
pub easy-Turned :
    (fuel : ℕ) (s : Nodes) (l : Tree) (p : ℕ) (r : Tree) (c : Way)
    → OneChild l r
    → Rep s 0 (plug (node l p r) c)
    → Distinct (in_order (plug (node l p r) c))
    → size (plug (node l p r) c) < 2 ^ 31
    → size (plug (node l p r) c) ≤ fuel
    → Returns
        (Turned
          (index_of (in_order (plug (node l p r) c)))
          0
          (length (in_order (plug (node l p r) c)))
          s
          0
          (ptr (climbed (only l r) c))
          (climbed (only l r) c))
        (avl_del_easy fuel s p)
easy-Turned fuel s l p r c one h distinct small enough =
    let t = plug (node l p r) c in
    let split =
      plug-Split (index_of (in_order t)) 0 (length (in_order t)) (node l p r) c
        (in_order-Ranked t distinct) in
    let placed = plug-Placed s (node l p r) c h in
    let less = size-plug-le (only l r) (node l p r) c (omega (arith, size-only l r)) in
    avl_del_easy-Turned (index_of (in_order t)) 0 (length (in_order t)) fuel s split.lo l p r
      split.hi c split.inner split.outer placed.inner placed.outer (one-ptr l r one) (omega arith)
      (omega (arith, length-le-size (node l p r) c))

pub easy-IsAvl :
    (l : Tree) (p : ℕ) (r : Tree) (c : Way)
    → OneChild l r
    → IsAvl (plug (node l p r) c)
    → IsAvl (climbed (only l r) c)
easy-IsAvl l p r c one balanced =
    let around = plug-BalancedPath (node l p r) c balanced in
    climbed-IsAvl (height (node l p r)) (only l r) c (only-Replaced l p r one around.0) around.1
