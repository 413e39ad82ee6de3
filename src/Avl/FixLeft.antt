-- ===== src/Avl/FixLeft.antt =====
-- `avl_fix_left` on a tree in the store.
use greenis.Prelude.{
  ℕ, suc, ◌^◌, ◌≤◌, ◌<◌, ◌≡◌, ◌⊎◌, inl, inr, refl, ap, ◌∙◌, arith, ok, ◌>>=◌, Bool-cases, le→ltb,
  Returns, returns, Returns-bind, Returns-map, ltb,
}
use greenis.Avl.{Nodes, set_left, rot_left, rot_right, avl_fix_left}
use greenis.Avl.Tree.{Tree, leaf, node, ptr, height, size, lower_left}
use greenis.Avl.Store.{
  Links, Rep, deref-ok, write-same, write-other, avl_height-Rep, Ranked, Ranked-le, rank_apart,
  Rep-kept, Outside, Turned,
}
use greenis.Avl.RotateLeft.{rot_left-Turned}
use greenis.Avl.RotateRight.{rot_right-Turned}

-- `node` has the subtrees `l` and `r` again, whatever its height and its count say.
record Ready (rank : ℕ → ℕ) (lo hi : ℕ) (s : Nodes) (par : ℕ) (l : Tree) (p : ℕ) (r : Tree)
    (s' : Nodes) : Type 0 where
  links : Links s' par p (ptr l) (ptr r)
  left : Rep s' p l
  right : Rep s' p r
  outside : Outside rank lo hi s s'

module _ (rank : ℕ → ℕ) (s : Nodes) (par lo : ℕ) (p : ℕ) (r : Tree) (hi : ℕ) where
  turn_left :
      (a : Tree) (q : ℕ) (b1 : Tree) (x : ℕ) (b2 : Tree)
      → Ranked rank lo (node (node a q (node b1 x b2)) p r) hi
      → Links s par p q (ptr r)
      → Rep s p (node a q (node b1 x b2))
      → Rep s p r
      → size (node a q (node b1 x b2)) < 2 ^ 32
      → Returns
          (Ready rank lo hi s par (node (node a q b1) x b2) p r)
          (rot_left s q >>= λ (y, t). ok (set_left t p y))
  turn_left a q b1 x b2 ranks links left right small =
      Returns-bind
        (rot_left-Turned rank s p lo a q b1 x b2 (rank p) ranks.0 left.0 left.4.0 left.3 left.4.3
          left.4.4 small)
        λ (y, t) w.
          let at_p : t p ≡ s p = w.outside p (inr (omega arith)) in
          let far : (z : ℕ) → (rank z < rank p) ⊎ (rank p < rank z) → set_left t p y z ≡ t z =
            λ z o. write-other t p _ z (rank_apart rank z p o) in
          let own = write-same t p (record (t p) { left = y }) in
          returns (record {
            links = record {
              ne_null = links.ne_null;
              parent = ap (λ n. n.parent) own ∙ ap (λ n. n.parent) at_p ∙ links.parent;
              left = ap (λ n. n.left) own ∙ w.top;
              right = ap (λ n. n.right) own ∙ ap (λ n. n.right) at_p ∙ links.right;
            };
            left =
                Rep-kept rank t _ p lo (node (node a q b1) x b2) (rank p)
                  ((ranks.0.0, ranks.0.1.0), ranks.0.1.1) (λ z m n. far z (inl n)) w.rep;
            right =
                Rep-kept rank s _ p (suc (rank p)) r hi ranks.1
                  (λ z m n. far z (inr m) ∙ w.outside z (inr (omega arith))) right;
            outside = λ z o. far z (beyond ranks z o) ∙ w.outside z (wider ranks z o);
          })
    where
      beyond :
          Ranked rank lo (node (node a q (node b1 x b2)) p r) hi
          → (z : ℕ) → (rank z < lo) ⊎ (hi ≤ rank z)
          → (rank z < rank p) ⊎ (rank p < rank z)
      beyond ranks z (inl h) =
          inl (omega (arith, Ranked-le rank lo (node a q (node b1 x b2)) (rank p) ranks.0))
      beyond ranks z (inr h) = inr (omega (arith, Ranked-le rank (suc (rank p)) r hi ranks.1))

      wider :
          Ranked rank lo (node (node a q (node b1 x b2)) p r) hi
          → (z : ℕ) → (rank z < lo) ⊎ (hi ≤ rank z)
          → (rank z < lo) ⊎ (rank p ≤ rank z)
      wider ranks z (inl h) = inl h
      wider ranks z (inr h) = inr (omega (arith, Ranked-le rank (suc (rank p)) r hi ranks.1))

  -- The last rotation, on a ready node.
  last_right :
      (a : Tree) (q : ℕ) (b : Tree) (s' : Nodes)
      → Ranked rank lo (node (node a q b) p r) hi
      → size (node (node a q b) p r) < 2 ^ 32
      → Ready rank lo hi s par (node a q b) p r s'
      → Returns (Turned rank lo hi s par q (node a q (node b p r))) (rot_right s' p)
  last_right a q b s' ranks small v =
      Returns-map
        (rot_right-Turned rank s' par lo a q b p r hi ranks v.links v.left.0 v.left.3 v.left.4
          v.right small)
        λ w t. record { top = t.top; rep = t.rep; outside = λ z o. t.outside z o ∙ v.outside z o }

  -- `avl_fix_left` does what `lower_left` says.
  pub avl_fix_left-Turned :
      (l : Tree)
      → Ranked rank lo (node l p r) hi
      → Links s par p (ptr l) (ptr r)
      → Rep s p l
      → Rep s p r
      → size (node l p r) < 2 ^ 32
      → 0 < height l
      → Returns
          (Turned rank lo hi s par (ptr (lower_left (node l p r))) (lower_left (node l p r)))
          (avl_fix_left s p)
  unfolding avl_fix_left
  avl_fix_left-Turned leaf ranks links left right small high = absurd (omega arith)
  avl_fix_left-Turned (node a q leaf) ranks links left right small high =
      rw
        (
          deref-ok s p links.ne_null,
          links.left,
          deref-ok s q left.0.ne_null,
          left.0.left,
          left.0.right,
          avl_height-Rep s q a left.3,
          avl_height-Rep s q leaf tt,
          le→ltb (height a) 0 (omega arith),
        )
        (last_right a q leaf s ranks small
          (record { links = links; left = left; right = right; outside = λ z o. refl }))
  avl_fix_left-Turned (node a q (node b1 x b2)) ranks links left right small high =
      rw
        (
          deref-ok s p links.ne_null,
          links.left,
          deref-ok s q left.0.ne_null,
          left.0.left,
          left.0.right,
          avl_height-Rep s q a left.3,
          avl_height-Rep s q (node b1 x b2) left.4,
        )
        (elim (Bool-cases (ltb (height a) (height (node b1 x b2)))) [
          | inl e ↦ rw e (
              Returns-bind (turn_left a q b1 x b2 ranks links left right (omega (arith, small)))
                λ s' v.
                  last_right (node a q b1) x b2 s'
                    (((ranks.0.0, ranks.0.1.0), ranks.0.1.1), ranks.1) (omega (arith, small)) v)
          | inr e ↦ rw e (
              last_right a q (node b1 x b2) s ranks small
                (record { links = links; left = left; right = right; outside = λ z o. refl }))
        ])
