-- ===== src/Avl/Held.antt =====
-- The addresses that a store holds as a balanced tree, and `avl_fix` after an insertion.
use greenis.Prelude.{
  ℕ, ◌^◌, ◌<◌, ◌≡◌, inr, List, arith, Apart, Distinct, Returns, Returns-map, length,
}
use greenis.Avl.{Nodes, avl_fix}
use greenis.Avl.Tree.{Tree, leaf, node, ptr, size, in_order, rebalance}
use greenis.Avl.Store.{Links, Rep, Turned}
use greenis.Avl.Way.{Way, plug, path_ptr, RepPath, plug-Split}
use greenis.Avl.Repair.{fix_up, fix_up-climbed, in_order-fix_up}
use greenis.Avl.Fix.{avl_fix-Turned}
use greenis.Avl.Balance.{IsAvl, Replaced, plug-BalancedPath, climbed-IsAvl}
use greenis.Avl.Rank.{index_of, index_of-Apart, in_order-Ranked}

-- The store holds a balanced tree with this root, whose heights and counts are right and whose nodes are `l`
-- from left to right.
pub record IsHeld (s : Nodes) (root : ℕ) (l : List ℕ) : Type 0 where
  pub tree : Tree
  pub top : root ≡ ptr tree
  pub rep : Rep s 0 tree
  pub balanced : IsAvl tree
  pub order : in_order tree ≡ l

-- After an operation on nodes among `old` the store holds the nodes `l`, and no other node has changed.
pub record Becomes (s : Nodes) (old l : List ℕ) (r : ℕ × Nodes) : Type 0 where
  pub held : IsHeld r.1 r.0 l
  pub untouched : (x : ℕ) → Apart x old → r.1 x ≡ s x

pub Turned-Becomes :
    (s : Nodes) (old l : List ℕ) (t : Tree) (r : ℕ × Nodes)
    → IsAvl t
    → in_order t ≡ l
    → Turned (index_of old) 0 (length old) s 0 (ptr t) t r
    → Becomes s old l r
Turned-Becomes s old l t r b e w = record {
  held = record { tree = t; top = w.top; rep = w.rep; balanced = b; order = e };
  untouched = λ x a. w.outside x (inr (omega (arith, index_of-Apart old x a)));
}

new_leaf : (p : ℕ) → Replaced 0 (rebalance (node leaf p leaf))
unfolding rebalance
new_leaf p = record {
  balanced = (tt, tt, omega arith, omega arith);
  near = (omega arith, omega arith);
}

-- `avl_fix` at a new leaf, which hangs in the place of a null link of a balanced tree: the tree is balanced again
-- with every count and height right, its nodes stand in the same order, and no other node has changed.
pub avl_fix-Becomes :
    (fuel : ℕ) (s : Nodes) (p : ℕ) (c : Way)
    → Links s (path_ptr c) p 0 0
    → RepPath s p c
    → IsAvl (plug leaf c)
    → Distinct (in_order (plug (node leaf p leaf) c))
    → size (plug (node leaf p leaf) c) < 2 ^ 31
    → length c < fuel
    → Returns
        (Becomes s (in_order (plug (node leaf p leaf) c)) (in_order (plug (node leaf p leaf) c)))
        (avl_fix fuel s p)
avl_fix-Becomes fuel s p c links around balanced distinct small enough =
    let t = plug (node leaf p leaf) c in
    let split =
      plug-Split (index_of (in_order t)) 0 (length (in_order t)) (node leaf p leaf) c
        (in_order-Ranked t distinct) in
    Returns-map
      (avl_fix-Turned (index_of (in_order t)) 0 (length (in_order t)) fuel s split.lo leaf p leaf
        split.hi c split.inner split.outer links tt tt around small enough)
      λ r w.
        Turned-Becomes s (in_order t) (in_order t) (fix_up (node leaf p leaf) c) r
          (rw (fix_up-climbed (node leaf p leaf) c) (
            climbed-IsAvl 0 (rebalance (node leaf p leaf)) c (new_leaf p)
              (plug-BalancedPath leaf c balanced).1))
          (in_order-fix_up (node leaf p leaf) c) w
