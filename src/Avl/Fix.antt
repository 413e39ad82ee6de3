-- ===== src/Avl/Fix.antt =====
-- `avl_fix` on a tree in the store: the loop from a node up to the root.
use greenis.Prelude.{
  subst, ℕ, zero, suc, ◌+◌, ◌%◌, ◌^◌, ◌≤◌, ◌<◌, ◌≡◌, ◌⊎◌, inl, inr, refl, sym, ap, ◌∙◌, arith, [],
  ◌∷◌, true, false, ok, Bool-cases, Returns, returns, Returns-bind, Returns-map, ◌==◌, length,
}
use greenis.Avl.{Nodes, write, fix_height, avl_fix}
use greenis.Avl.Tree.{
  Tree, node, ptr, height, size, lower_left, lower_right, rebalance, height-le-size,
}
use greenis.Avl.Store.{
  Links, Rep, not_null, deref-ok, write-other, avl_height-Rep, updated, avl_update-ok,
  avl_update-Rep, Ranked, Ranked-le, rank_apart, Outside, Turned,
}
use greenis.Avl.FixLeft.{avl_fix_left-Turned}
use greenis.Avl.FixRight.{avl_fix_right-Turned}
use greenis.Avl.Way.{
  on_left, on_right, Way, path_ptr, plug, RepPath, RankedPath, RankedPath-within, RepPath-kept,
}
use greenis.Avl.Repair.{
  climbed, fix_up, fix_up-climbed, size-rebalance, size-plug, size-le-plug, Ranked-rebalance,
}
use greenis.Avl.Attach.{side, Hung, is_left-side, attach-Hung}

wrap : (n : ℕ) → n < 2 ^ 32 → n % 2 ^ 32 ≡ n
wrap n h = omega arith

module _ (rank : ℕ → ℕ) (first last : ℕ) where
  -- The middle of the loop repairs one node.
  fix_height-Hung :
      (s : Nodes) (lo : ℕ) (l : Tree) (p : ℕ) (r : Tree) (hi : ℕ) (c : Way)
      → Ranked rank lo (node l p r) hi
      → RankedPath rank first last lo hi c
      → Rep s (path_ptr c) (node l p r)
      → RepPath s p c
      → size (node l p r) < 2 ^ 31
      → Returns
          (Hung rank first last s c (rebalance (node l p r)))
          (fix_height s p (path_ptr c) (side c))
  unfolding fix_height rebalance
  fix_height-Hung s lo l p r hi c ranks o h around small =
      let tall = height-le-size l in
      let tall' = height-le-size r in
      let balanced = Ranked-rebalance rank lo (node l p r) hi ranks in
      rw
        (
          deref-ok s p h.0.ne_null,
          h.0.left,
          h.0.right,
          avl_height-Rep s p l h.3,
          avl_height-Rep s p r h.4,
          wrap (height r + 2) (omega arith),
          wrap (height l + 2) (omega arith),
        )
        (elim (Bool-cases (height l == height r + 2)) [
          | inl e ↦ rw e (
              Returns-bind
                (avl_fix_left-Turned rank s (path_ptr c) lo p r hi l ranks h.0 h.3 h.4 (omega arith)
                  (high l r e))
                λ (x, t) w. returns (
                  attach-Hung rank first last s p lo hi c (lower_left (node l p r)) x t
                    (rw e at balanced) o around w))
          | inr e ↦ elim (Bool-cases (height l + 2 == height r)) [
            | inl f ↦
                rw (e, f)
                  (Returns-bind
                    (avl_fix_right-Turned rank s (path_ptr c) lo l p hi r ranks h.0 h.3 h.4
                      (omega arith) (high' l r f))
                    λ (x, t) w. returns (
                      attach-Hung rank first last s p lo hi c (lower_right (node l p r)) x t
                        (rw (e, f) at balanced) o around w))
            | inr f ↦
                rw (e, f)
                  (returns (record { top = refl; rep = h; around = around; outside = λ z d. refl }))
          ]
        ])
    where
      high : (l r : Tree) → (height l == height r + 2) ≡ true → 0 < height l
      high l r e = ground arith

      high' : (l r : Tree) → (height l + 2 == height r) ≡ true → 0 < height r
      high' l r e = ground arith

  -- What holds of a call of `avl_fix` with this fuel.
  abbrev Repairs : ℕ → Type 0
  Repairs fuel =
      (s : Nodes) (lo : ℕ) (l : Tree) (p : ℕ) (r : Tree) (hi : ℕ) (c : Way)
      → Ranked rank lo (node l p r) hi
      → RankedPath rank first last lo hi c
      → Links s (path_ptr c) p (ptr l) (ptr r)
      → Rep s p l
      → Rep s p r
      → RepPath s p c
      → size (plug (node l p r) c) < 2 ^ 31
      → length c < fuel
      → Returns (Turned rank first last s 0 (ptr (fix_up (node l p r) c)) (fix_up (node l p r) c))
          (avl_fix fuel s p)

  -- The rest of the rounds, from a repaired subtree.
  climb :
      (fuel : ℕ)
      → Repairs fuel
      → (s : Nodes) (lo : ℕ) (t : Tree) (hi x : ℕ) (c : Way) (par : ℕ) → par ≡ path_ptr c
      → Ranked rank lo t hi
      → RankedPath rank first last lo hi c
      → x ≡ ptr t
      → Rep s (path_ptr c) t
      → RepPath s (ptr t) c
      → size (plug t c) < 2 ^ 31
      → length c < suc fuel
      → Returns
          (Turned rank first last s 0 (ptr (climbed t c)) (climbed t c))
          (elim (path_ptr c == 0) [ true ↦ ok (x, s) | false ↦ avl_fix fuel s par ])
  climb fuel repairs s lo t hi x [] par u b (e, f) top h around small enough =
      returns (record { top = top; rep = h; outside = λ z d. refl })
  climb fuel repairs s lo t hi x (on_left q r ∷ c) par u b (e, (end, right, o)) top h around small
        enough =
      rw (not_null q around.0.ne_null, u)
        (repairs s lo t q r end c (rw e at b, right) o around.0 h around.1 around.2 small
          (omega arith))
  climb fuel repairs s lo t hi x (on_right l q ∷ c) par u b (e, (start, left, o)) top h around small
        enough =
      rw (not_null q around.0.ne_null, u)
        (repairs s start l q t hi c (left, rw e at b) o around.0 around.1 h around.2 small
          (omega arith))

  -- `avl_fix` at a node below the path `c`: the whole is in order again, every count and height is right, and
  -- nothing beyond the tree has changed.
  pub avl_fix-Turned :
      (fuel : ℕ) (s : Nodes) (lo : ℕ) (l : Tree) (p : ℕ) (r : Tree) (hi : ℕ) (c : Way)
      → Ranked rank lo (node l p r) hi
      → RankedPath rank first last lo hi c
      → Links s (path_ptr c) p (ptr l) (ptr r)
      → Rep s p l
      → Rep s p r
      → RepPath s p c
      → size (plug (node l p r) c) < 2 ^ 31
      → length c < fuel
      → Returns
          (Turned rank first last s 0 (ptr (fix_up (node l p r) c)) (fix_up (node l p r) c))
          (avl_fix fuel s p)
  unfolding avl_fix
  avl_fix-Turned zero s lo l p r hi c ranks o links left right around small enough =
      absurd (omega arith)
  avl_fix-Turned (suc fuel) s lo l p r hi c ranks o links left right around small enough =
      let part = size-le-plug (node l p r) c in
      let below = Ranked-le rank lo l (rank p) ranks.0 in
      let above = Ranked-le rank (suc (rank p)) r hi ranks.1 in
      let within = RankedPath-within rank first last lo hi c (omega arith) o in
      let inside : Outside rank lo hi s (write s p (updated s l p r)) =
        λ z d. write-other s p _ z (rank_apart rank z p (beyond below above z d)) in
      rw
        (
          deref-ok s p links.ne_null,
          links.parent,
          is_left-side rank first last s p lo hi c links.ne_null below o around,
          avl_update-ok s (path_ptr c) l p r links left right (omega arith),
        )
        (Returns-bind
          (fix_height-Hung (write s p (updated s l p r)) lo l p r hi c ranks o
            (avl_update-Rep rank s (path_ptr c) lo l p r hi ranks links left right)
            (RepPath-kept rank s _ p first last lo hi c (omega arith) o inside around)
            (omega arith))
          λ (x, s') w.
            Returns-map
              (climb fuel (avl_fix-Turned fuel) s' lo (rebalance (node l p r)) hi x c (s p).parent
                links.parent (Ranked-rebalance rank lo (node l p r) hi ranks) o w.top w.rep w.around
                (omega (
                  arith,
                  size-plug (rebalance (node l p r)) (node l p r) c (size-rebalance (node l p r)),
                  small,
                ))
                enough)
              λ w' t. record {
                top = t.top ∙ ap ptr (sym (fix_up-climbed (node l p r) c));
                rep = subst (Rep w'.1 0) (sym (fix_up-climbed (node l p r) c)) t.rep;
                outside =
                    λ z d. t.outside z d ∙ w.outside z d ∙ inside z (wider within.0 within.1 z d);
              })
    where
      beyond :
          lo ≤ rank p
          → suc (rank p) ≤ hi
          → (z : ℕ) → (rank z < lo) ⊎ (hi ≤ rank z)
          → (rank z < rank p) ⊎ (rank p < rank z)
      beyond u v z (inl d) = inl (omega arith)
      beyond u v z (inr d) = inr (omega arith)

      wider :
          first ≤ lo
          → hi ≤ last
          → (z : ℕ) → (rank z < first) ⊎ (last ≤ rank z)
          → (rank z < lo) ⊎ (hi ≤ rank z)
      wider f g z (inl d) = inl (omega arith)
      wider f g z (inr d) = inr (omega arith)
