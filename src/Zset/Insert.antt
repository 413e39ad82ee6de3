-- ===== src/Zset/Insert.antt =====
-- `tree_insert` on the root and the nodes of a set.
use greenis.Prelude.{
  ℕ, suc, ◌^◌, ◌≤◌, ◌<◌, ◌≡◌, ◌≢◌, ◌⊎◌, inl, inr, sym, ap, ◌∙◌, subst, Bool, true, false, List, [],
  ◌∷◌, ◌++◌, append-nil, arith, Run, ◌>>=◌, Apart, Distinct, Returns, Returns-bind, Returns-map,
  length,
}
use greenis.Avl.{Nodes, set_parent, attach, avl_fix}
use greenis.Avl.Tree.{leaf, node, in_order}
use greenis.Avl.Store.{Rep, Links, write-same, write-other, rank_apart}
use greenis.Avl.Way.{Way, plug, path_ptr, RepPath, RankedPath-within, RepPath-kept, plug-Split}
use greenis.Avl.Attach.{side, attach-RepPath, attach-far}
use greenis.Avl.Balance.{IsAvl}
use greenis.Avl.Rank.{index_of, index_of-Apart, in_order-Ranked}
use greenis.Avl.Place.{after, in_order-parts, plug-Placed, length-le-size, size-in_order}
use greenis.Avl.Held.{IsHeld, Becomes, avl_fix-Becomes}
use greenis.Zset.{search, insert_below}
use greenis.Zset.Search.{Answers, search-IsGap}

-- A node without children hangs in the place of the null link.
record IsNewLeaf (s s' : Nodes) (p : ℕ) (c : Way) : Type 0 where
  links : Links s' (path_ptr c) p 0 0
  around : RepPath s' p c
  untouched : (x : ℕ) → Apart x (in_order (plug (node leaf p leaf) c)) → s' x ≡ s x

hang-IsNewLeaf :
    (s : Nodes) (p : ℕ) (c : Way)
    → RepPath s 0 c
    → Distinct (in_order (plug (node leaf p leaf) c))
    → p ≢ 0
    → (s p).left ≡ 0
    → (s p).right ≡ 0
    → IsNewLeaf s (set_parent (attach s (path_ptr c) (side c) p) p (path_ptr c)) p c
hang-IsNewLeaf s p c around distinct n el er =
    let t = plug (node leaf p leaf) c in
    let rank = index_of (in_order t) in
    let last = length (in_order t) in
    let split = plug-Split rank 0 last (node leaf p leaf) c (in_order-Ranked t distinct) in
    let below = split.inner.0 in
    let above = split.inner.1 in
    let within =
      RankedPath-within rank 0 last split.lo split.hi c (omega (arith, below, above)) split.outer in
    let s1 : Nodes = attach s (path_ptr c) (side c) p in
    let same : s1 p ≡ s p =
      attach-far rank 0 last s 0 p split.lo split.hi c (omega (arith, below, above)) split.outer p
        (inl (below, above)) in
    let own = write-same s1 p (record (s1 p) { parent = path_ptr c }) in
    record {
      links = record {
        ne_null = n;
        parent = ap (λ m. m.parent) own;
        left = ap (λ m. m.left) own ∙ ap (λ m. m.left) same ∙ el;
        right = ap (λ m. m.right) own ∙ ap (λ m. m.right) same ∙ er;
      };
      around =
          RepPath-kept rank s1 _ p 0 last split.lo split.hi c (omega (arith, below, above))
            split.outer
            (λ z d.
              write-other s1 p _ z
                (rank_apart rank z p (far z (rank p) split.lo split.hi below above d)))
            (attach-RepPath rank 0 last s 0 p split.lo split.hi c (omega (arith, below, above))
              split.outer around);
      untouched = λ x away.
          let end = index_of-Apart (in_order t) x away in
          write-other s1 p _ x (rank_apart rank x p (inr (omega (arith, end, above, within.1))))
          ∙ attach-far rank 0 last s 0 p split.lo split.hi c (omega (arith, below, above))
              split.outer x (inr (inr (omega (arith, end))));
    }
  where
    far :
        (z k lo hi : ℕ)
        → lo ≤ k
        → suc k ≤ hi
        → (index_of (in_order (plug (node leaf p leaf) c)) z < lo)
          ⊎ (hi ≤ index_of (in_order (plug (node leaf p leaf) c)) z)
        → (index_of (in_order (plug (node leaf p leaf) c)) z < k)
          ⊎ (k < index_of (in_order (plug (node leaf p leaf) c)) z)
    far z k lo hi a b (inl d) = inl (omega arith)
    far z k lo hi a b (inr d) = inr (omega arith)

-- What `tree_insert` does after its search.
abbrev hang : ℕ → Nodes → ℕ → ℕ × Bool → Run (ℕ × Nodes)
hang fuel s p (parent, on_left) = avl_fix fuel (set_parent (attach s parent on_left p) p parent) p

-- Into a balanced tree `tree_insert` puts a new node behind the nodes that it is not less than and before the others,
-- when these stand in this order: the tree is balanced again, every height and count is right and no other node has
-- changed.
pub insert_below-Becomes :
    (fuel : ℕ) (less : ℕ → Run Bool) (s : Nodes) (root p : ℕ) (xs ys : List ℕ)
    → IsHeld s root (xs ++ ys)
    → Answers less false xs
    → Answers less true ys
    → Distinct (xs ++ p ∷ ys)
    → p ≢ 0
    → (s p).left ≡ 0
    → (s p).right ≡ 0
    → length (xs ++ p ∷ ys) < 2 ^ 31
    → length (xs ++ p ∷ ys) < fuel
    → Returns (Becomes s (xs ++ p ∷ ys) (xs ++ p ∷ ys)) (insert_below fuel less s root p)
unfolding insert_below
insert_below-Becomes fuel less s root p xs ys held behind ahead distinct n el er small enough =
    subst
      (λ r.
        Returns (Becomes s (xs ++ p ∷ ys) (xs ++ p ∷ ys))
          (search fuel less s r (0, true) >>= hang fuel s p))
      (sym held.top)
      (Returns-bind
        (search-IsGap less s fuel 0 held.tree [] xs ys held.rep held.order behind ahead
          (omega (arith, size-in_order held.tree, ap length held.order, more xs, enough)))
        λ r gap.
          let c = gap.path in
          let order : in_order (plug (node leaf p leaf) c) ≡ xs ++ p ∷ ys =
            in_order-parts (node leaf p leaf) c
            ∙ ap (λ z. z ++ p ∷ after c) gap.before_it
            ∙ ap (λ z. xs ++ p ∷ z) (gap.after_it ∙ append-nil ys) in
          let apart = subst Distinct (sym order) distinct in
          let outer = (plug-Placed s leaf c (subst (Rep s 0) (sym gap.same) held.rep)).outer in
          let hung = hang-IsNewLeaf s p c outer apart n el er in
          let count = size-in_order (plug (node leaf p leaf) c) in
          let deep = length-le-size (node leaf p leaf) c in
          subst (λ q. Returns (Becomes s (xs ++ p ∷ ys) (xs ++ p ∷ ys)) (hang fuel s p q))
            (sym gap.found)
            (Returns-map
              (avl_fix-Becomes fuel _ p c hung.links hung.around
                (subst IsAvl (sym gap.same) held.balanced) apart
                (omega (arith, count, ap length order, small))
                (omega (arith, count, ap length order, deep, enough)))
              λ r' w. record {
                held = subst (IsHeld r'.1 r'.0) order w.held;
                untouched = λ x away.
                    let away' = subst (Apart x) (sym order) away in
                    w.untouched x away' ∙ hung.untouched x away';
              }))
  where
    more : (l : List ℕ) → length (l ++ ys) ≤ length (l ++ p ∷ ys)
    more [] = omega arith
    more (x ∷ l) = omega (arith, more l)
