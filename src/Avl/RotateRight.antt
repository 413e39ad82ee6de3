-- ===== src/Avl/RotateRight.antt =====
-- `rot_right` on a tree in the store.
use greenis.Prelude.{
  ℕ, suc, ◌^◌, ◌≤◌, ◌<◌, ◌≡◌, ◌≢◌, ◌⊎◌, inl, inr, refl, sym, ap, ◌∙◌, arith, Returns, returns,
}
use greenis.Avl.{
  AvlNode, Nodes, write, set_parent, set_left, set_right, adopt, link_right, rot_right,
}
use greenis.Avl.Tree.{Tree, node, ptr, size}
use greenis.Avl.Store.{
  Links, Links-kept, Rep, updated, deref-ok, write-same, write-other, avl_update-ok, avl_update-Rep,
  Ranked, Ranked-le, rank_apart, adopt-out, Rep-kept, Rep-adopt, Turned,
}

module _ (rank : ℕ → ℕ) (s : Nodes) (par lo : ℕ) (a : Tree) (p : ℕ) (b : Tree) (q : ℕ) (c : Tree)
    (hi : ℕ) (ranks : Ranked rank lo (node (node a p b) q c) hi) (at_q : Links s par q p (ptr c))
    (at_p : Links s q p (ptr a) (ptr b)) (in_a : Rep s p a) (in_b : Rep s p b) (in_c : Rep s q c)
    (small : size (node (node a p b) q c) < 2 ^ 32) where
  p_lt_q : rank p < rank q
  p_lt_q = Ranked-le rank (suc (rank p)) b (rank q) ranks.0.1

  p_not_q : p ≢ q
  p_not_q = rank_apart rank p q (inl p_lt_q)

  q_not_p : q ≢ p
  q_not_p e = p_not_q (sym e)

  abbrev linked : Nodes
  linked = link_right s q par p (ptr b)

  -- Away from `p`, `q` and the inner subtree the links stay.
  linked_far : (x : ℕ) → (rank x < rank p) ⊎ (rank q < rank x) → linked x ≡ s x
  unfolding link_right
  linked_far x o =
      let not_p = rank_apart rank x p (far_p o) in
      let not_q = rank_apart rank x q (far_q o) in
      let s1 = set_left s q (ptr b) in
      let s2 = adopt s1 (ptr b) q in
      let s3 = set_parent s2 p par in
      let s4 = set_right s3 p q in
      write-other s4 q _ x not_q
      ∙ write-other s3 p _ x not_p
      ∙ write-other s2 p _ x not_p
      ∙ adopt-out rank s1 (suc (rank p)) b (rank q) q x ranks.0.1 (far_b o)
      ∙ write-other s q _ x not_q
    where
      far_p : (rank x < rank p) ⊎ (rank q < rank x) → (rank x < rank p) ⊎ (rank p < rank x)
      far_p (inl h) = inl h
      far_p (inr h) = inr (omega (arith, p_lt_q))

      far_q : (rank x < rank p) ⊎ (rank q < rank x) → (rank x < rank q) ⊎ (rank q < rank x)
      far_q (inl h) = inl (omega (arith, p_lt_q))
      far_q (inr h) = inr h

      far_b : (rank x < rank p) ⊎ (rank q < rank x) → (rank x < suc (rank p)) ⊎ (rank q ≤ rank x)
      far_b (inl h) = inl (omega arith)
      far_b (inr h) = inr (omega arith)

  linked_q : linked q ≡ record (s q) { left = ptr b; parent = p }
  unfolding link_right
  linked_q =
      let s1 = set_left s q (ptr b) in
      let s2 = adopt s1 (ptr b) q in
      let s3 = set_parent s2 p par in
      let s4 = set_right s3 p q in
      let before : s4 q ≡ record (s q) { left = ptr b } =
        write-other s3 p _ q q_not_p
        ∙ write-other s2 p _ q q_not_p
        ∙ adopt-out rank s1 (suc (rank p)) b (rank q) q q ranks.0.1 (inr (omega arith))
        ∙ write-same s q _ in
      write-same s4 q _ ∙ ap {A = AvlNode} {B = AvlNode} (λ n. record n { parent = p }) before

  linked_p : linked p ≡ record (s p) { parent = par; right = q }
  unfolding link_right
  linked_p =
      let s1 = set_left s q (ptr b) in
      let s2 = adopt s1 (ptr b) q in
      let s3 = set_parent s2 p par in
      let s4 = set_right s3 p q in
      let before : s2 p ≡ s p =
        adopt-out rank s1 (suc (rank p)) b (rank q) q p ranks.0.1 (inl (omega arith))
        ∙ write-other s q _ p p_not_q in
      write-other s4 q _ p p_not_q
      ∙ write-same s3 p _
      ∙ ap {A = AvlNode} {B = AvlNode} (λ n. record n { right = q })
          (write-same s2 p _
            ∙ ap {A = AvlNode} {B = AvlNode} (λ n. record n { parent = par }) before)

  linked_b : Rep linked q b
  unfolding link_right
  linked_b =
      let s1 = set_left s q (ptr b) in
      let s2 = adopt s1 (ptr b) q in
      let s3 = set_parent s2 p par in
      let s4 = set_right s3 p q in
      let kept =
        Rep-kept rank s s1 p (suc (rank p)) b (rank q) ranks.0.1
          (λ x m n. write-other s q _ x (rank_apart rank x q (inl n))) in_b in
      Rep-kept rank s2 linked q (suc (rank p)) b (rank q) ranks.0.1
        (λ x m n.
          let not_p = rank_apart rank x p (inr m) in
          let not_q = rank_apart rank x q (inl n) in
          write-other s4 q _ x not_q ∙ write-other s3 p _ x not_p ∙ write-other s2 p _ x not_p)
        (Rep-adopt rank s1 p (suc (rank p)) b (rank q) q ranks.0.1 kept)

  linked_a : Rep linked p a
  linked_a = Rep-kept rank s linked p lo a (rank p) ranks.0.0 (λ x m n. linked_far x (inl n)) in_a

  linked_c : Rep linked q c
  linked_c =
      Rep-kept rank s linked q (suc (rank q)) c hi ranks.1 (λ x m n. linked_far x (inr m)) in_c

  Links-q : Links linked p q (ptr b) (ptr c)
  Links-q = record {
    ne_null = at_q.ne_null;
    parent = ap (λ n. n.parent) linked_q;
    left = ap (λ n. n.left) linked_q;
    right = ap (λ n. n.right) linked_q ∙ at_q.right;
  }

  Links-p : Links linked par p (ptr a) q
  Links-p = record {
    ne_null = at_p.ne_null;
    parent = ap (λ n. n.parent) linked_p;
    left = ap (λ n. n.left) linked_p ∙ at_p.left;
    right = ap (λ n. n.right) linked_p;
  }

  -- `rot_right` makes `p` the root and keeps the order.
  pub rot_right-Turned : Returns (Turned rank lo hi s par p (node a p (node b q c))) (rot_right s q)
  unfolding rot_right
  rot_right-Turned =
      let lower : Tree = node b q c in
      let low_ranks : Ranked rank (suc (rank p)) lower hi = (ranks.0.1, ranks.1) in
      let s6 = write linked q (updated linked b q c) in
      let first = avl_update-ok linked p b q c Links-q linked_b linked_c (omega (arith, small)) in
      let low =
        avl_update-Rep rank linked p (suc (rank p)) b q c hi low_ranks Links-q linked_b linked_c in
      let at_p' = Links-kept linked s6 par p (ptr a) q Links-p (write-other linked q _ p p_not_q) in
      let in_a' =
        Rep-kept rank linked s6 p lo a (rank p) ranks.0.0
          (λ x m n. write-other linked q _ x (rank_apart rank x q (inl (omega (arith, p_lt_q)))))
          linked_a in
      let second = avl_update-ok s6 par a p lower at_p' in_a' low (omega (arith, small)) in
      let whole =
        avl_update-Rep rank s6 par lo a p lower hi (ranks.0.0, low_ranks) at_p' in_a' low in
      rw (deref-ok s q at_q.ne_null, at_q.left, at_q.parent, deref-ok s p at_p.ne_null, at_p.right)
        (rw (first, second)
          (returns (record {
            top = refl;
            rep = whole;
            outside = λ x o.
                let far = beyond x o in
                write-other s6 p _ x (rank_apart rank x p (far_of_p far))
                ∙ write-other linked q _ x (rank_apart rank x q (far_of_q far))
                ∙ linked_far x far;
          })))
    where
      below : lo ≤ rank p
      below = Ranked-le rank lo a (rank p) ranks.0.0

      above : suc (rank q) ≤ hi
      above = Ranked-le rank (suc (rank q)) c hi ranks.1

      beyond : (x : ℕ) → (rank x < lo) ⊎ (hi ≤ rank x) → (rank x < rank p) ⊎ (rank q < rank x)
      beyond x (inl h) = inl (omega (arith, below))
      beyond x (inr h) = inr (omega (arith, above))

      far_of_p :
          {x : ℕ} → (rank x < rank p) ⊎ (rank q < rank x) → (rank x < rank p) ⊎ (rank p < rank x)
      far_of_p (inl h) = inl h
      far_of_p (inr h) = inr (omega (arith, p_lt_q))

      far_of_q :
          {x : ℕ} → (rank x < rank p) ⊎ (rank q < rank x) → (rank x < rank q) ⊎ (rank q < rank x)
      far_of_q (inl h) = inl (omega (arith, p_lt_q))
      far_of_q (inr h) = inr h
