-- ===== src/Avl/Finish.antt =====
-- `avl_del` after the successor is out of the tree: it takes the place of the node.
use greenis.Prelude.{
  ℕ, ◌≡◌, ◌≢◌, refl, sym, subst, ◌∙◌, [], ◌∷◌, arith, Run, ok, ◌>>=◌, Apart, Distinct, Returns,
  returns, length, ◌==◌, if◌then◌else◌,
}
use greenis.Avl.{Nodes, null, attach, is_left}
use greenis.Avl.Tree.{Tree, node, ptr, in_order}
use greenis.Avl.Store.{not_null, Ranked-le, Turned}
use greenis.Avl.Way.{
  on_left, on_right, Way, plug, path_ptr, RepPath, plug-Split, RankedPath-within, RepPath-kept,
}
use greenis.Avl.Attach.{is_left-side}
use greenis.Avl.Rank.{index_of, index_of-Apart, in_order-Ranked}
use greenis.Avl.Place.{Placed}
use greenis.Avl.Swap.{moved, moved-Turned, swap-Turned}

-- The end of `avl_del`, from the tree without the successor.
abbrev pub finish : Nodes → ℕ → ℕ → ℕ → ℕ → ℕ → ℕ → Run (ℕ × Nodes)
finish s p v root x y parent = is_left (moved s p v x y) parent p >>= λ on_left.
    ok (if parent == null then v else root, attach (moved s p v x y) parent on_left v)

ptr-plug : (t t' : Tree) (c : Way) → ptr t ≡ ptr t' → ptr (plug t c) ≡ ptr (plug t' c)
ptr-plug t t' [] e = e
ptr-plug t t' (on_left p r ∷ c) e = ptr-plug (node t p r) (node t' p r) c refl
ptr-plug t t' (on_right l p ∷ c) e = ptr-plug (node l p t) (node l p t') c refl

root_after :
    (s : Nodes) (a : Tree) (p : ℕ) (b : Tree) (v root : ℕ) (c : Way)
    → RepPath s p c
    → root ≡ ptr (plug (node a p b) c)
    → (if path_ptr c == null then v else root) ≡ ptr (plug (node a v b) c)
root_after s a p b v root [] h e = refl
root_after s a p b v root (on_left q r ∷ c) h e =
    rw (not_null q h.0.ne_null)
      (e ∙ ptr-plug (node (node a p b) q r) (node (node a v b) q r) c refl)
root_after s a p b v root (on_right l q ∷ c) h e =
    rw (not_null q h.0.ne_null)
      (e ∙ ptr-plug (node l q (node a p b)) (node l q (node a v b)) c refl)

module _ (s : Nodes) (a : Tree) (p : ℕ) (b : Tree) (v root : ℕ) (c : Way) where
  abbrev pub swapped : Tree
  swapped = plug (node a v b) c

  abbrev pub Swapped : ℕ × Nodes → Type 0
  Swapped =
      Turned (index_of (in_order swapped)) 0 (length (in_order swapped)) s 0 (ptr swapped) swapped

  pub finish-Turned :
      Placed s (node a p b) c
      → v ≢ 0
      → root ≡ ptr (plug (node a p b) c)
      → Distinct (in_order swapped)
      → Apart p (in_order swapped)
      → Returns Swapped (finish s p v root (ptr a) (ptr b) (path_ptr c))
  finish-Turned h n e distinct away =
      let rank = index_of (in_order swapped) in
      let last = length (in_order swapped) in
      let split = plug-Split rank 0 last (node a v b) c (in_order-Ranked swapped distinct) in
      let w =
        moved-Turned rank 0 last s (path_ptr c) split.lo a p b v split.hi split.inner n h.inner in
      let between = Ranked-le rank split.lo (node a v b) split.hi split.inner in
      let within = RankedPath-within rank 0 last split.lo split.hi c between split.outer in
      rw
        (is_left-side rank 0 last _ p split.lo split.hi c h.inner.0.ne_null
          (omega (arith, between, within.1, index_of-Apart (in_order swapped) p away)) split.outer
          (RepPath-kept rank s _ p 0 last split.lo split.hi c between split.outer w.outside
            h.outer))
        (returns (
          swap-Turned rank 0 last s split.lo a p b v split.hi c _ split.inner split.outer n h
            (root_after s a p b v root c h.outer e)))

  pub finished :
      (x y parent : ℕ)
      → x ≡ ptr a
      → y ≡ ptr b
      → parent ≡ path_ptr c
      → Returns Swapped (finish s p v root (ptr a) (ptr b) (path_ptr c))
      → Returns Swapped (finish s p v root x y parent)
  finished x y parent e f g h =
      subst (λ z. Returns Swapped (finish s p v root z y parent)) (sym e)
        (subst (λ z. Returns Swapped (finish s p v root (ptr a) z parent)) (sym f)
          (subst (λ z. Returns Swapped (finish s p v root (ptr a) (ptr b) z)) (sym g) h))
