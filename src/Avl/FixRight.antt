-- ===== src/Avl/FixRight.antt =====
-- `avl_fix_right` on a tree in the store.
use greenis.Prelude.{
  ℕ, suc, ◌^◌, ◌≤◌, ◌<◌, ◌≡◌, ◌⊎◌, inl, inr, refl, ap, ◌∙◌, arith, ok, ◌>>=◌, Bool-cases, le→ltb,
  Returns, returns, Returns-bind, Returns-map, ltb,
}
use greenis.Avl.{Nodes, set_right, rot_left, rot_right, avl_fix_right}
use greenis.Avl.Tree.{Tree, leaf, node, ptr, height, size, lower_right}
use greenis.Avl.Store.{
  Links, Rep, deref-ok, write-same, write-other, avl_height-Rep, Ranked, Ranked-le, rank_apart,
  Rep-kept, Outside, Turned,
}
use greenis.Avl.RotateLeft.{rot_left-Turned}
use greenis.Avl.RotateRight.{rot_right-Turned}

-- `node` has the subtrees `l` and `r` again, whatever its height and its count say.
record Ready (rank : ℕ → ℕ) (lo hi : ℕ) (s : Nodes) (par : ℕ) (l : Tree) (p : ℕ) (r : Tree)
    (s' : Nodes) : Type 0 where
  links : Links s' par p (ptr l) (ptr r)
  left : Rep s' p l
  right : Rep s' p r
  outside : Outside rank lo hi s s'

module _ (rank : ℕ → ℕ) (s : Nodes) (par lo : ℕ) (l : Tree) (p : ℕ) (hi : ℕ) where
  turn_right :
      (a1 : Tree) (x : ℕ) (a2 : Tree) (q : ℕ) (b : Tree)
      → Ranked rank lo (node l p (node (node a1 x a2) q b)) hi
      → Links s par p (ptr l) q
      → Rep s p l
      → Rep s p (node (node a1 x a2) q b)
      → size (node (node a1 x a2) q b) < 2 ^ 32
      → Returns
          (Ready rank lo hi s par l p (node a1 x (node a2 q b)))
          (rot_right s q >>= λ (y, t). ok (set_right t p y))
  turn_right a1 x a2 q b ranks links left right small =
      Returns-bind
        (rot_right-Turned rank s p (suc (rank p)) a1 x a2 q b hi ranks.1 right.0 right.3.0 right.3.3
          right.3.4 right.4 small)
        λ (y, t) w.
          let at_p : t p ≡ s p = w.outside p (inl (omega arith)) in
          let far : (z : ℕ) → (rank z < rank p) ⊎ (rank p < rank z) → set_right t p y z ≡ t z =
            λ z o. write-other t p _ z (rank_apart rank z p o) in
          let own = write-same t p (record (t p) { right = y }) in
          returns (record {
            links = record {
              ne_null = links.ne_null;
              parent = ap (λ n. n.parent) own ∙ ap (λ n. n.parent) at_p ∙ links.parent;
              left = ap (λ n. n.left) own ∙ ap (λ n. n.left) at_p ∙ links.left;
              right = ap (λ n. n.right) own ∙ w.top;
            };
            left =
                Rep-kept rank s _ p lo l (rank p) ranks.0
                  (λ z m n. far z (inl n) ∙ w.outside z (inl (omega arith))) left;
            right =
                Rep-kept rank t _ p (suc (rank p)) (node a1 x (node a2 q b)) hi
                  (ranks.1.0.0, (ranks.1.0.1, ranks.1.1)) (λ z m n. far z (inr m)) w.rep;
            outside = λ z o. far z (beyond ranks z o) ∙ w.outside z (wider ranks z o);
          })
    where
      beyond :
          Ranked rank lo (node l p (node (node a1 x a2) q b)) hi
          → (z : ℕ) → (rank z < lo) ⊎ (hi ≤ rank z)
          → (rank z < rank p) ⊎ (rank p < rank z)
      beyond ranks z (inl h) = inl (omega (arith, Ranked-le rank lo l (rank p) ranks.0))
      beyond ranks z (inr h) =
          inr (omega (arith, Ranked-le rank (suc (rank p)) (node (node a1 x a2) q b) hi ranks.1))

      wider :
          Ranked rank lo (node l p (node (node a1 x a2) q b)) hi
          → (z : ℕ) → (rank z < lo) ⊎ (hi ≤ rank z)
          → (rank z < suc (rank p)) ⊎ (hi ≤ rank z)
      wider ranks z (inl h) = inl (omega (arith, Ranked-le rank lo l (rank p) ranks.0))
      wider ranks z (inr h) = inr h

  -- The last rotation, on a ready node.
  last_left :
      (a : Tree) (q : ℕ) (b : Tree) (s' : Nodes)
      → Ranked rank lo (node l p (node a q b)) hi
      → size (node l p (node a q b)) < 2 ^ 32
      → Ready rank lo hi s par l p (node a q b) s'
      → Returns (Turned rank lo hi s par q (node (node l p a) q b)) (rot_left s' p)
  last_left a q b s' ranks small v =
      Returns-map
        (rot_left-Turned rank s' par lo l p a q b hi ranks v.links v.right.0 v.left v.right.3
          v.right.4 small)
        λ w t. record { top = t.top; rep = t.rep; outside = λ z o. t.outside z o ∙ v.outside z o }

  -- `avl_fix_right` does what `lower_right` says.
  pub avl_fix_right-Turned :
      (r : Tree)
      → Ranked rank lo (node l p r) hi
      → Links s par p (ptr l) (ptr r)
      → Rep s p l
      → Rep s p r
      → size (node l p r) < 2 ^ 32
      → 0 < height r
      → Returns
          (Turned rank lo hi s par (ptr (lower_right (node l p r))) (lower_right (node l p r)))
          (avl_fix_right s p)
  unfolding avl_fix_right
  avl_fix_right-Turned leaf ranks links left right small high = absurd (omega arith)
  avl_fix_right-Turned (node leaf q b) ranks links left right small high =
      rw
        (
          deref-ok s p links.ne_null,
          links.right,
          deref-ok s q right.0.ne_null,
          right.0.left,
          right.0.right,
          avl_height-Rep s q b right.4,
          avl_height-Rep s q leaf tt,
          le→ltb (height b) 0 (omega arith),
        )
        (last_left leaf q b s ranks small
          (record { links = links; left = left; right = right; outside = λ z o. refl }))
  avl_fix_right-Turned (node (node a1 x a2) q b) ranks links left right small high =
      rw
        (
          deref-ok s p links.ne_null,
          links.right,
          deref-ok s q right.0.ne_null,
          right.0.left,
          right.0.right,
          avl_height-Rep s q b right.4,
          avl_height-Rep s q (node a1 x a2) right.3,
        )
        (elim (Bool-cases (ltb (height b) (height (node a1 x a2)))) [
          | inl e ↦ rw e (
              Returns-bind (turn_right a1 x a2 q b ranks links left right (omega (arith, small)))
                λ s' v.
                  last_left a1 x (node a2 q b) s' (ranks.0, (ranks.1.0.0, (ranks.1.0.1, ranks.1.1)))
                    (omega (arith, small)) v)
          | inr e ↦ rw e (
              last_left (node a1 x a2) q b s ranks small
                (record { links = links; left = left; right = right; outside = λ z o. refl }))
        ])
