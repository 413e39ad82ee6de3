-- ===== src/Avl/Store.antt =====
-- A tree of addresses in the store. A rank for each address, which grows from left to right, tells the
-- addresses apart and says where a write is.
use Prim.Native.Nat.{max}
use greenis.Prelude.{
  ℕ, suc, ◌+◌, ◌%◌, ◌^◌, ◌≤◌, ◌<◌, ◌≡◌, ◌≢◌, ◌⊎◌, inl, inr, refl, ap, ◌∙◌, arith, ok, false,
  ==_refl, ◌==◌,
}
use greenis.Avl.{AvlNode, Nodes, deref, write, adopt, avl_height, avl_cnt, avl_update}
use greenis.Avl.Tree.{Tree, leaf, node, ptr, height, size, height-le-size}

-- The node at `p` has these links.
pub record Links (s : Nodes) (par p x y : ℕ) : Type 0 where
  pub ne_null : p ≢ 0
  pub parent : (s p).parent ≡ par
  pub left : (s p).left ≡ x
  pub right : (s p).right ≡ y

-- The store holds the tree, below the parent `par`.
abbrev pub Rep : Nodes → ℕ → Tree → Type 0
Rep s par leaf = Unit
Rep s par (node l p r) =
    Links s par p (ptr l) (ptr r)
    × ((s p).height ≡ height (node l p r))
    × ((s p).cnt ≡ size (node l p r))
    × Rep s p l
    × Rep s p r

pub not_null : (p : ℕ) → p ≢ 0 → (p == 0) ≡ false
not_null p h = ground arith

pub write-same : (s : Nodes) (p : ℕ) (n : AvlNode) → write s p n p ≡ n
write-same s p n = rw (==_refl p)

pub write-other : (s : Nodes) (p : ℕ) (n : AvlNode) (x : ℕ) → x ≢ p → write s p n x ≡ s x
write-other s p n x h = ground arith

pub adopt-same : (s : Nodes) (p v : ℕ) → p ≢ 0 → adopt s p v p ≡ record (s p) { parent = v }
adopt-same s p v h = rw (not_null p h) (write-same s p _)

pub adopt-other : (s : Nodes) (p v x : ℕ) → x ≢ p → adopt s p v x ≡ s x
adopt-other s p v x h = ground arith

pub deref-ok : (s : Nodes) (p : ℕ) → p ≢ 0 → deref s p ≡ ok (s p)
unfolding deref
deref-ok s p h = ground arith

pub avl_height-Rep :
    (s : Nodes) (par : ℕ) (t : Tree) → Rep s par t → avl_height s (ptr t) ≡ height t
avl_height-Rep s par leaf h = refl
avl_height-Rep s par (node l p r) h = rw (not_null p h.0.ne_null) h.1

pub avl_cnt-Rep : (s : Nodes) (par : ℕ) (t : Tree) → Rep s par t → avl_cnt s (ptr t) ≡ size t
avl_cnt-Rep s par leaf h = refl
avl_cnt-Rep s par (node l p r) h = rw (not_null p h.0.ne_null) h.2

-- The node at `p` after an update.
abbrev pub updated : Nodes → Tree → ℕ → Tree → AvlNode
updated s l p r = record (s p) { height = height (node l p r); cnt = size (node l p r) }

-- `avl_update` writes the height and the size of a node whose subtrees are right.
pub avl_update-ok :
    (s : Nodes) (par : ℕ) (l : Tree) (p : ℕ) (r : Tree)
    → Links s par p (ptr l) (ptr r)
    → Rep s p l
    → Rep s p r
    → size (node l p r) < 2 ^ 32
    → avl_update s p ≡ ok (write s p (updated s l p r))
unfolding avl_update
avl_update-ok s par l p r links left right small =
    let tall = height-le-size l in
    let tall' = height-le-size r in
    rw
      (
        deref-ok s p links.ne_null,
        links.left,
        links.right,
        avl_height-Rep s p l left,
        avl_height-Rep s p r right,
        avl_cnt-Rep s p l left,
        avl_cnt-Rep s p r right,
      )
      (rw (wrap (1 + max (height l) (height r)) (omega arith), wrap (1 + size l + size r) small))
  where
    wrap : (n : ℕ) → n < 2 ^ 32 → n % 2 ^ 32 ≡ n
    wrap n h = omega arith

pub Links-kept :
    (s s' : Nodes) (par p x y : ℕ) → Links s par p x y → s' p ≡ s p → Links s' par p x y
Links-kept s s' par p x y h e = record {
  ne_null = h.ne_null;
  parent = ap (λ n. n.parent) e ∙ h.parent;
  left = ap (λ n. n.left) e ∙ h.left;
  right = ap (λ n. n.right) e ∙ h.right;
}

module _ (rank : ℕ → ℕ) where
  -- The addresses of the tree have ranks from `lo` to before `hi`, growing from left to right.
  abbrev pub Ranked : ℕ → Tree → ℕ → Type 0
  Ranked lo leaf hi = lo ≤ hi
  Ranked lo (node l p r) hi = Ranked lo l (rank p) × Ranked (suc (rank p)) r hi

  pub Ranked-le : (lo : ℕ) (t : Tree) (hi : ℕ) → Ranked lo t hi → lo ≤ hi
  Ranked-le lo leaf hi h = h
  Ranked-le lo (node l p r) hi h =
      omega (arith, Ranked-le lo l (rank p) h.0, Ranked-le (suc (rank p)) r hi h.1)

  pub rank_apart : (x y : ℕ) → (rank x < rank y) ⊎ (rank y < rank x) → x ≢ y
  rank_apart x y o e = elim o [
    | inl p ↦ omega (arith, ap rank e)
    | inr p ↦ omega (arith, ap rank e)
  ]

  -- Two stores agree from `lo` to before `hi`.
  abbrev pub Agrees : ℕ → ℕ → Nodes → Nodes → Type 0
  Agrees lo hi s s' = (x : ℕ) → lo ≤ rank x → rank x < hi → s' x ≡ s x

  -- Two stores agree before `lo` and from `hi` on.
  abbrev pub Outside : ℕ → ℕ → Nodes → Nodes → Type 0
  Outside lo hi s s' = (x : ℕ) → (rank x < lo) ⊎ (hi ≤ rank x) → s' x ≡ s x

  -- A tree stays when the store keeps its addresses.
  pub Rep-kept :
      (s s' : Nodes) (par lo : ℕ) (t : Tree) (hi : ℕ)
      → Ranked lo t hi
      → Agrees lo hi s s'
      → Rep s par t
      → Rep s' par t
  Rep-kept s s' par lo leaf hi b a h = tt
  Rep-kept s s' par lo (node l p r) hi b a h =
      let below = Ranked-le lo l (rank p) b.0 in
      let above = Ranked-le (suc (rank p)) r hi b.1 in
      let same = a p below above in
      (
        Links-kept s s' par p (ptr l) (ptr r) h.0 same,
        ap (λ n. n.height) same ∙ h.1,
        ap (λ n. n.cnt) same ∙ h.2,
        Rep-kept s s' p lo l (rank p) b.0 (λ x u v. a x u (omega arith)) h.3,
        Rep-kept s s' p (suc (rank p)) r hi b.1 (λ x u v. a x (omega arith) v) h.4,
      )

  -- The pointer to a tree is not an address beyond it.
  pub ptr-apart :
      (s : Nodes) (par lo : ℕ) (t : Tree) (hi p : ℕ)
      → Ranked lo t hi
      → p ≢ 0
      → (rank p < lo) ⊎ (hi ≤ rank p)
      → ptr t ≢ p
  ptr-apart s par lo leaf hi p b n o = ground arith
  ptr-apart s par lo (node l q r) hi p b n o =
      let below = Ranked-le lo l (rank q) b.0 in
      let above = Ranked-le (suc (rank q)) r hi b.1 in λ e. apart below above (ap rank e)
    where
      apart : lo ≤ rank q → suc (rank q) ≤ hi → rank q ≢ rank p
      apart u v e = ground arith

  -- A tree gets another parent.
  pub Rep-adopt :
      (s : Nodes) (par lo : ℕ) (t : Tree) (hi v : ℕ)
      → Ranked lo t hi
      → Rep s par t
      → Rep (adopt s (ptr t) v) v t
  Rep-adopt s par lo leaf hi v b h = tt
  Rep-adopt s par lo (node l p r) hi v b h =
      let own = adopt-same s p v h.0.ne_null in
      let other : (x : ℕ) → (rank x < rank p) ⊎ (rank p < rank x) → adopt s p v x ≡ s x =
        λ x o. adopt-other s p v x (rank_apart x p o) in
      (
        record {
          ne_null = h.0.ne_null;
          parent = ap (λ n. n.parent) own;
          left = ap (λ n. n.left) own ∙ h.0.left;
          right = ap (λ n. n.right) own ∙ h.0.right;
        },
        ap (λ n. n.height) own ∙ h.1,
        ap (λ n. n.cnt) own ∙ h.2,
        Rep-kept s (adopt s p v) p lo l (rank p) b.0 (λ x m n. other x (inl n)) h.3,
        Rep-kept s (adopt s p v) p (suc (rank p)) r hi b.1 (λ x m n. other x (inr (omega arith)))
            h.4,
      )

  -- Giving the root of a tree another parent changes nothing beyond the tree.
  pub adopt-out :
      (s : Nodes) (lo : ℕ) (t : Tree) (hi v x : ℕ)
      → Ranked lo t hi
      → (rank x < lo) ⊎ (hi ≤ rank x)
      → adopt s (ptr t) v x ≡ s x
  adopt-out s lo leaf hi v x b o = refl
  adopt-out s lo (node l p r) hi v x b o =
      let below = Ranked-le lo l (rank p) b.0 in
      let above = Ranked-le (suc (rank p)) r hi b.1 in
      adopt-other s p v x (rank_apart x p (far below above o))
    where
      far :
          lo ≤ rank p
          → suc (rank p) ≤ hi
          → (rank x < lo) ⊎ (hi ≤ rank x)
          → (rank x < rank p) ⊎ (rank p < rank x)
      far u w (inl h) = inl (omega arith)
      far u w (inr h) = inr (omega arith)

  -- A node whose subtrees are right is right after an update.
  pub avl_update-Rep :
      (s : Nodes) (par lo : ℕ) (l : Tree) (p : ℕ) (r : Tree) (hi : ℕ)
      → Ranked lo (node l p r) hi
      → Links s par p (ptr l) (ptr r)
      → Rep s p l
      → Rep s p r
      → Rep (write s p (updated s l p r)) par (node l p r)
  avl_update-Rep s par lo l p r hi b links left right =
      let own = write-same s p (updated s l p r) in
      (
        record {
          ne_null = links.ne_null;
          parent = ap (λ n. n.parent) own ∙ links.parent;
          left = ap (λ n. n.left) own ∙ links.left;
          right = ap (λ n. n.right) own ∙ links.right;
        },
        ap (λ n. n.height) own,
        ap (λ n. n.cnt) own,
        Rep-kept s _ p lo l (rank p) b.0 (λ x m n. write-other s p _ x (rank_apart x p (inl n)))
            left,
        Rep-kept s _ p (suc (rank p)) r hi b.1
            (λ x m n. write-other s p _ x (rank_apart x p (inr m))) right,
      )

  -- What a repair returns: the root of the tree `t`, which the store then holds, with no change beyond
  -- its addresses.
  pub record Turned (lo hi : ℕ) (s : Nodes) (par root : ℕ) (t : Tree) (r : ℕ × Nodes) : Type 0 where
    pub top : r.0 ≡ root
    pub rep : Rep r.1 par t
    pub outside : Outside lo hi s r.1
