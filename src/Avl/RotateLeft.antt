-- ===== src/Avl/RotateLeft.antt =====
-- `rot_left` on a tree in the store.
use greenis.Prelude.{
  ℕ, suc, ◌^◌, ◌≤◌, ◌<◌, ◌≡◌, ◌≢◌, ◌⊎◌, inl, inr, refl, sym, ap, ◌∙◌, arith, Returns, returns,
}
use greenis.Avl.{AvlNode, Nodes, write, set_parent, set_left, set_right, adopt, link_left, rot_left}
use greenis.Avl.Tree.{Tree, node, ptr, size}
use greenis.Avl.Store.{
  Links, Links-kept, Rep, updated, deref-ok, write-same, write-other, avl_update-ok, avl_update-Rep,
  Ranked, Ranked-le, rank_apart, adopt-out, Rep-kept, Rep-adopt, Turned,
}

module _ (rank : ℕ → ℕ) (s : Nodes) (par lo : ℕ) (a : Tree) (p : ℕ) (b : Tree) (q : ℕ) (c : Tree)
    (hi : ℕ) (ranks : Ranked rank lo (node a p (node b q c)) hi) (at_p : Links s par p (ptr a) q)
    (at_q : Links s p q (ptr b) (ptr c)) (in_a : Rep s p a) (in_b : Rep s q b) (in_c : Rep s q c)
    (small : size (node a p (node b q c)) < 2 ^ 32) where
  p_lt_q : rank p < rank q
  p_lt_q = Ranked-le rank (suc (rank p)) b (rank q) ranks.1.0

  p_not_q : p ≢ q
  p_not_q = rank_apart rank p q (inl p_lt_q)

  abbrev linked : Nodes
  linked = link_left s p par q (ptr b)

  -- Away from `p`, `q` and the inner subtree the links stay.
  linked_far : (x : ℕ) → (rank x < rank p) ⊎ (rank q < rank x) → linked x ≡ s x
  unfolding link_left
  linked_far x o =
      let not_p = rank_apart rank x p (far_p o) in
      let not_q = rank_apart rank x q (far_q o) in
      let s1 = set_right s p (ptr b) in
      let s2 = adopt s1 (ptr b) p in
      let s3 = set_parent s2 q par in
      let s4 = set_left s3 q p in
      write-other s4 p _ x not_p
      ∙ write-other s3 q _ x not_q
      ∙ write-other s2 q _ x not_q
      ∙ adopt-out rank s1 (suc (rank p)) b (rank q) p x ranks.1.0 (far_b o)
      ∙ write-other s p _ x not_p
    where
      far_p : (rank x < rank p) ⊎ (rank q < rank x) → (rank x < rank p) ⊎ (rank p < rank x)
      far_p (inl h) = inl h
      far_p (inr h) = inr (omega (arith, p_lt_q))

      far_q : (rank x < rank p) ⊎ (rank q < rank x) → (rank x < rank q) ⊎ (rank q < rank x)
      far_q (inl h) = inl (omega (arith, p_lt_q))
      far_q (inr h) = inr h

      far_b : (rank x < rank p) ⊎ (rank q < rank x) → (rank x < suc (rank p)) ⊎ (rank q ≤ rank x)
      far_b (inl h) = inl (omega arith)
      far_b (inr h) = inr (omega arith)

  linked_p : linked p ≡ record (s p) { right = ptr b; parent = q }
  unfolding link_left
  linked_p =
      let s1 = set_right s p (ptr b) in
      let s2 = adopt s1 (ptr b) p in
      let s3 = set_parent s2 q par in
      let s4 = set_left s3 q p in
      let before : s4 p ≡ record (s p) { right = ptr b } =
        write-other s3 q _ p p_not_q
        ∙ write-other s2 q _ p p_not_q
        ∙ adopt-out rank s1 (suc (rank p)) b (rank q) p p ranks.1.0 (inl (omega arith))
        ∙ write-same s p _ in
      write-same s4 p _ ∙ ap {A = AvlNode} {B = AvlNode} (λ n. record n { parent = q }) before

  linked_q : linked q ≡ record (s q) { parent = par; left = p }
  unfolding link_left
  linked_q =
      let q_not_p : q ≢ p = λ e. p_not_q (sym e) in
      let s1 = set_right s p (ptr b) in
      let s2 = adopt s1 (ptr b) p in
      let s3 = set_parent s2 q par in
      let s4 = set_left s3 q p in
      let before : s2 q ≡ s q =
        adopt-out rank s1 (suc (rank p)) b (rank q) p q ranks.1.0 (inr (omega arith))
        ∙ write-other s p _ q q_not_p in
      write-other s4 p _ q q_not_p
      ∙ write-same s3 q _
      ∙ ap {A = AvlNode} {B = AvlNode} (λ n. record n { left = p })
          (write-same s2 q _
            ∙ ap {A = AvlNode} {B = AvlNode} (λ n. record n { parent = par }) before)

  linked_b : Rep linked p b
  unfolding link_left
  linked_b =
      let s1 = set_right s p (ptr b) in
      let s2 = adopt s1 (ptr b) p in
      let s3 = set_parent s2 q par in
      let s4 = set_left s3 q p in
      let kept =
        Rep-kept rank s s1 q (suc (rank p)) b (rank q) ranks.1.0
          (λ x m n. write-other s p _ x (rank_apart rank x p (inr m))) in_b in
      Rep-kept rank s2 linked p (suc (rank p)) b (rank q) ranks.1.0
        (λ x m n.
          let not_p = rank_apart rank x p (inr m) in
          let not_q = rank_apart rank x q (inl n) in
          write-other s4 p _ x not_p ∙ write-other s3 q _ x not_q ∙ write-other s2 q _ x not_q)
        (Rep-adopt rank s1 q (suc (rank p)) b (rank q) p ranks.1.0 kept)

  linked_a : Rep linked p a
  linked_a = Rep-kept rank s linked p lo a (rank p) ranks.0 (λ x m n. linked_far x (inl n)) in_a

  linked_c : Rep linked q c
  linked_c =
      Rep-kept rank s linked q (suc (rank q)) c hi ranks.1.1 (λ x m n. linked_far x (inr m)) in_c

  Links-p : Links linked q p (ptr a) (ptr b)
  Links-p = record {
    ne_null = at_p.ne_null;
    parent = ap (λ n. n.parent) linked_p;
    left = ap (λ n. n.left) linked_p ∙ at_p.left;
    right = ap (λ n. n.right) linked_p;
  }

  Links-q : Links linked par q p (ptr c)
  Links-q = record {
    ne_null = at_q.ne_null;
    parent = ap (λ n. n.parent) linked_q;
    left = ap (λ n. n.left) linked_q;
    right = ap (λ n. n.right) linked_q ∙ at_q.right;
  }

  -- `rot_left` makes `q` the root and keeps the order.
  pub rot_left-Turned : Returns (Turned rank lo hi s par q (node (node a p b) q c)) (rot_left s p)
  unfolding rot_left
  rot_left-Turned =
      let lower : Tree = node a p b in
      let low_ranks : Ranked rank lo lower (rank q) = (ranks.0, ranks.1.0) in
      let s6 = write linked p (updated linked a p b) in
      let first = avl_update-ok linked q a p b Links-p linked_a linked_b (omega (arith, small)) in
      let low =
        avl_update-Rep rank linked q lo a p b (rank q) low_ranks Links-p linked_a linked_b in
      let q_not_p : q ≢ p = λ e. p_not_q (sym e) in
      let at_q' = Links-kept linked s6 par q p (ptr c) Links-q (write-other linked p _ q q_not_p) in
      let in_c' =
        Rep-kept rank linked s6 q (suc (rank q)) c hi ranks.1.1
          (λ x m n. write-other linked p _ x (rank_apart rank x p (inr (omega (arith, p_lt_q)))))
          linked_c in
      let second = avl_update-ok s6 par lower q c at_q' low in_c' (omega (arith, small)) in
      let whole =
        avl_update-Rep rank s6 par lo lower q c hi (low_ranks, ranks.1.1) at_q' low in_c' in
      rw (deref-ok s p at_p.ne_null, at_p.right, at_p.parent, deref-ok s q at_q.ne_null, at_q.left)
        (rw (first, second)
          (returns (record {
            top = refl;
            rep = whole;
            outside = λ x o.
                let far = beyond x o in
                write-other s6 q _ x (rank_apart rank x q (far_of_q far))
                ∙ write-other linked p _ x (rank_apart rank x p (far_of_p far))
                ∙ linked_far x far;
          })))
    where
      below : lo ≤ rank p
      below = Ranked-le rank lo a (rank p) ranks.0

      above : suc (rank q) ≤ hi
      above = Ranked-le rank (suc (rank q)) c hi ranks.1.1

      beyond : (x : ℕ) → (rank x < lo) ⊎ (hi ≤ rank x) → (rank x < rank p) ⊎ (rank q < rank x)
      beyond x (inl h) = inl (omega (arith, below))
      beyond x (inr h) = inr (omega (arith, above))

      far_of_p :
          {x : ℕ} → (rank x < rank p) ⊎ (rank q < rank x) → (rank x < rank p) ⊎ (rank p < rank x)
      far_of_p (inl h) = inl h
      far_of_p (inr h) = inr (omega (arith, p_lt_q))

      far_of_q :
          {x : ℕ} → (rank x < rank p) ⊎ (rank q < rank x) → (rank x < rank q) ⊎ (rank q < rank x)
      far_of_q (inl h) = inl (omega (arith, p_lt_q))
      far_of_q (inr h) = inr h
