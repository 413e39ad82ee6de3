-- ===== src/Avl/Delete.antt =====
-- `avl_del` on a tree in the store.
use greenis.Avl.Place.{size-in_order}
use greenis.Prelude.{
  branch-true, branch-false, ℕ, ◌^◌, ◌≤◌, ◌<◌, ◌≡◌, ◌≢◌, ◌⊎◌, inl, inr, refl, sym, ap, subst, ◌∙◌,
  List, [], ◌∷◌, ◌++◌, append-nil, arith, false, ◌||◌, ◌>>=◌, Apart, Distinct, Returns,
  Returns-bind, Returns-map, length, ◌==◌,
}
use greenis.Avl.{Nodes, null, avl_del_easy, leftmost, avl_del}
use greenis.Avl.Remove.{one_child}
use greenis.Avl.Tree.{Tree, leaf, node, ptr, size, in_order}
use greenis.Avl.Store.{Rep, deref-ok}
use greenis.Avl.Way.{Way, on_right, plug}
use greenis.Avl.Repair.{size-le-plug}
use greenis.Avl.Balance.{IsAvl}
use greenis.Avl.Place.{after, plug-Placed}
use greenis.Avl.Locate.{locate, leftmost-IsFirst}
use greenis.Avl.Easy.{no_left, no_right}
use greenis.Avl.Held.{IsHeld, Becomes}
use greenis.Avl.Exchange.{others, easy-Becomes, exchange, exchange-Becomes}

avl_del_one :
    (fuel : ℕ) (s : Nodes) (p x y : ℕ)
    → p ≢ 0
    → (s p).left ≡ x
    → (s p).right ≡ y
    → (x ≡ 0) ⊎ (y ≡ 0)
    → avl_del fuel s p ≡ avl_del_easy fuel s p
unfolding avl_del
avl_del_one fuel s p x y n e f o = rw (deref-ok s p n) (branch-true _ _ _ (one_child s p x y e f o))

avl_del_two :
    (fuel : ℕ) (s : Nodes) (p x y : ℕ)
    → p ≢ 0
    → (s p).left ≡ x
    → (s p).right ≡ y
    → x ≢ 0
    → y ≢ 0
    → avl_del fuel s p ≡ (leftmost fuel s y >>= λ v. exchange fuel s p v)
unfolding avl_del
avl_del_two fuel s p x y n e f a b = rw (deref-ok s p n) (
    branch-false _ (avl_del_easy fuel s p) _ two
    ∙ ap (λ k. leftmost fuel s k >>= λ v. exchange fuel s p v) f)
  where
    two : (((s p).left == null) || ((s p).right == null)) ≡ false
    two = ground arith

-- `avl_del` at the node of a place.
place-Becomes :
    (fuel : ℕ) (s : Nodes) (l : Tree) (p : ℕ) (r : Tree) (c : Way)
    → Rep s 0 (plug (node l p r) c)
    → IsAvl (plug (node l p r) c)
    → Distinct (in_order (plug (node l p r) c))
    → size (plug (node l p r) c) < 2 ^ 31
    → size (plug (node l p r) c) ≤ fuel
    → Returns (Becomes s (in_order (plug (node l p r) c)) (others l r c)) (avl_del fuel s p)
place-Becomes fuel s leaf p r c h balanced distinct small enough =
    let own = (plug-Placed s (node leaf p r) c h).inner.0 in
    subst (Returns _)
      (sym (avl_del_one fuel s p 0 (ptr r) own.ne_null own.left own.right (inl refl)))
      (easy-Becomes fuel s leaf p r c (no_left r) h balanced distinct small enough)
place-Becomes fuel s (node x q y) p leaf c h balanced distinct small enough =
    let own = (plug-Placed s (node (node x q y) p leaf) c h).inner.0 in
    subst (Returns _) (sym (avl_del_one fuel s p q 0 own.ne_null own.left own.right (inr refl))) (
      easy-Becomes fuel s (node x q y) p leaf c (no_right (node x q y)) h balanced distinct small
        enough)
place-Becomes fuel s (node x q y) p (node z u w) c h balanced distinct small enough =
    let own = (plug-Placed s (node (node x q y) p (node z u w)) c h).inner in
    let deep = size-le-plug (node (node x q y) p (node z u w)) c in
    subst (Returns _)
      (sym (
        avl_del_two fuel s p q u own.0.ne_null own.0.left own.0.right own.3.0.ne_null
          own.4.0.ne_null))
      (Returns-bind
        (leftmost-IsFirst fuel s p z u w (on_right (node x q y) p ∷ c) own.4 (omega arith))
        λ v first.
          exchange-Becomes (node x q y) p (node z u w) c v first fuel s h balanced distinct small
            enough)

-- `avl_del` at a node of a balanced tree of distinct nodes returns the root of a balanced tree with the other nodes
-- in the same order, every count and height right, and no node outside the tree changed. The tree has less than
-- 2^31 nodes, and as many rounds as nodes are enough.
pub avl_del-Becomes :
    (fuel : ℕ) (s : Nodes) (root : ℕ) (xs : List ℕ) (p : ℕ) (ys : List ℕ)
    → IsHeld s root (xs ++ p ∷ ys)
    → Distinct (xs ++ p ∷ ys)
    → length (xs ++ p ∷ ys) < 2 ^ 31
    → length (xs ++ p ∷ ys) ≤ fuel
    → Returns (Becomes s (xs ++ p ∷ ys) (xs ++ ys)) (avl_del fuel s p)
avl_del-Becomes fuel s root xs p ys held distinct small enough =
    let at = locate held.tree [] xs p ys held.order in
    let t : Tree = plug (node at.left p at.right) at.path in
    let nodes : in_order t ≡ xs ++ p ∷ ys = ap in_order at.whole ∙ held.order in
    let count = size-in_order t ∙ refl in
    Returns-map
      (place-Becomes fuel s at.left p at.right at.path (subst (Rep s 0) (sym at.whole) held.rep)
        (subst IsAvl (sym at.whole) held.balanced) (subst Distinct (sym nodes) distinct)
        (omega (arith, count, ap length nodes, small))
        (omega (arith, count, ap length nodes, enough)))
      λ r w. record {
        held = record {
          tree = w.held.tree;
          top = w.held.top;
          rep = w.held.rep;
          balanced = w.held.balanced;
          order =
              w.held.order
              ∙ ap (λ x. x ++ (in_order at.right ++ after at.path)) at.smaller
              ∙ ap (λ x. xs ++ x) (at.larger ∙ append-nil ys);
        };
        untouched = λ x away. w.untouched x (subst (Apart x) (sym nodes) away);
      }
