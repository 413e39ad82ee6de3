-- ===== src/Avl/Remove.antt =====
-- `avl_del_easy` on a tree in the store: a node with one child at most goes.
use greenis.Prelude.{
  ℕ, suc, ◌^◌, ◌≤◌, ◌<◌, ◌≡◌, ◌≢◌, ◌⊎◌, inl, inr, refl, sym, subst, ◌∙◌, arith, [], ◌∷◌, true,
  false, ◌||◌, Run, ok, ◌>>=◌, Returns, returns, Returns-map, ◌==◌, if◌then◌else◌, length,
}
use greenis.Avl.{Nodes, null, adopt, attach, is_left, avl_fix, avl_del_easy}
use greenis.Avl.Tree.{Tree, leaf, node, ptr, size}
use greenis.Avl.Store.{Rep, not_null, deref-ok, Ranked, Ranked-le, Rep-adopt, adopt-out, Turned}
use greenis.Avl.Way.{on_left, on_right, Way, path_ptr, plug, RepPath, RankedPath, RepPath-kept}
use greenis.Avl.Repair.{climbed}
use greenis.Avl.Attach.{side, Hung, is_left-side, attach-Hung}
use greenis.Avl.Fix.{avl_fix-Turned}

-- What `avl_del_easy` does after it has found the child `x` of `p`.
abbrev detach : ℕ → Nodes → ℕ → ℕ → ℕ → Run (ℕ × Nodes)
detach fuel s p x parent = is_left (adopt s x parent) parent p >>= λ on_left.
    elim (parent == null) [
      | true ↦ ok (x, adopt s x parent)
      | false ↦ avl_fix fuel (attach (adopt s x parent) parent on_left x) parent
    ]

-- The one child of a node.
abbrev pub only : Tree → Tree → Tree
only leaf r = r
only (node a q b) r = node a q b

pub one_child :
    (s : Nodes) (p x y : ℕ)
    → (s p).left ≡ x
    → (s p).right ≡ y
    → (x ≡ 0) ⊎ (y ≡ 0)
    → (((s p).left == null) || ((s p).right == null)) ≡ true
one_child s p x y e f o = ground arith

child_left :
    (s : Nodes) (p x : ℕ)
    → (s p).left ≡ 0
    → (s p).right ≡ x
    → (if (s p).left == null then (s p).right else (s p).left) ≡ x
child_left s p x e f = ground arith

child_right :
    (s : Nodes) (p x : ℕ)
    → (s p).left ≡ x
    → x ≢ 0
    → (if (s p).left == null then (s p).right else (s p).left) ≡ x
child_right s p x e n = ground arith

module _ (rank : ℕ → ℕ) (first last : ℕ) where
  detach-Hung :
      (s : Nodes) (lo : ℕ) (t : Tree) (hi p : ℕ) (c : Way)
      → Ranked rank lo t hi
      → RankedPath rank first last lo hi c
      → Rep s p t
      → RepPath s p c
      → Hung rank first last s c t
          (ptr t, attach (adopt s (ptr t) (path_ptr c)) (path_ptr c) (side c) (ptr t))
  detach-Hung s lo t hi p c ranks o h around =
      attach-Hung rank first last s p lo hi c t (ptr t) _ ranks o around record {
        top = refl;
        rep = Rep-adopt rank s p lo t hi (path_ptr c) ranks h;
        outside = λ z d. adopt-out rank s lo t hi (path_ptr c) z ranks d;
      }

  detach-side :
      (s : Nodes) (lo : ℕ) (t : Tree) (hi p : ℕ) (c : Way)
      → p ≢ 0
      → lo ≤ rank p
      → Ranked rank lo t hi
      → RankedPath rank first last lo hi c
      → RepPath s p c
      → is_left (adopt s (ptr t) (path_ptr c)) (path_ptr c) p ≡ ok (side c)
  detach-side s lo t hi p c n at ranks o around = is_left-side rank first last _ p lo hi c n at o (
      RepPath-kept rank s _ p first last lo hi c (Ranked-le rank lo t hi ranks) o
        (λ z d. adopt-out rank s lo t hi (path_ptr c) z ranks d) around)

  -- The repairs from the parent `q` of a subtree that hangs.
  detach-Turned :
      (fuel : ℕ) (s : Nodes) (lo : ℕ) (t : Tree) (hi p : ℕ) (c : Way)
      → p ≢ 0
      → lo ≤ rank p
      → Ranked rank lo t hi
      → RankedPath rank first last lo hi c
      → Rep s p t
      → RepPath s p c
      → size (plug t c) < 2 ^ 31
      → length c ≤ fuel
      → Returns
          (Turned rank first last s 0 (ptr (climbed t c)) (climbed t c))
          (detach fuel s p (ptr t) (path_ptr c))
  detach-Turned fuel s lo t hi p [] n at ranks o h around small enough =
      let hung = detach-Hung s lo t hi p [] ranks o h around in
      rw (detach-side s lo t hi p [] n at ranks o around)
        (returns (record { top = refl; rep = hung.rep; outside = hung.outside }))
  detach-Turned fuel s lo t hi p (on_left q r ∷ c) n at ranks o h around small enough =
      let hung = detach-Hung s lo t hi p (on_left q r ∷ c) ranks o h around in
      let (e, (end, right, up)) = o in
      rw
        (detach-side s lo t hi p (on_left q r ∷ c) n at ranks o around, not_null q around.0.ne_null)
        (Returns-map
          (avl_fix-Turned rank first last fuel _ lo t q r end c (rw e at ranks, right) up
            hung.around.0 hung.rep hung.around.1 hung.around.2 small (omega arith))
          λ w' w. record {
            top = w.top;
            rep = w.rep;
            outside = λ z d. w.outside z d ∙ hung.outside z d;
          })
  detach-Turned fuel s lo t hi p (on_right l q ∷ c) n at ranks o h around small enough =
      let hung = detach-Hung s lo t hi p (on_right l q ∷ c) ranks o h around in
      let (e, (start, left, up)) = o in
      rw
        (
          detach-side s lo t hi p (on_right l q ∷ c) n at ranks o around,
          not_null q around.0.ne_null,
        )
        (Returns-map
          (avl_fix-Turned rank first last fuel _ start l q t hi c (left, rw e at ranks) up
            hung.around.0 hung.around.1 hung.rep hung.around.2 small (omega arith))
          λ w' w. record {
            top = w.top;
            rep = w.rep;
            outside = λ z d. w.outside z d ∙ hung.outside z d;
          })

  detached :
      (fuel : ℕ) (s : Nodes) (lo : ℕ) (t : Tree) (hi p : ℕ) (c : Way)
      → p ≢ 0
      → lo ≤ rank p
      → Ranked rank lo t hi
      → RankedPath rank first last lo hi c
      → Rep s p t
      → RepPath s p c
      → size (plug t c) < 2 ^ 31
      → length c ≤ fuel
      → (x par : ℕ) → x ≡ ptr t
      → par ≡ path_ptr c
      → Returns
          (Turned rank first last s 0 (ptr (climbed t c)) (climbed t c))
          (detach fuel s p x par)
  detached fuel s lo t hi p c n at ranks o h around small enough x par e f =
      subst
        (λ q.
          Returns (Turned rank first last s 0 (ptr (climbed t c)) (climbed t c))
            (detach fuel s p x q))
        (sym f)
        (subst
          (λ y.
            Returns (Turned rank first last s 0 (ptr (climbed t c)) (climbed t c))
              (detach fuel s p y (path_ptr c)))
          (sym e) (detach-Turned fuel s lo t hi p c n at ranks o h around small enough))

  Ranked-from :
      (lo lo' : ℕ) (t : Tree) (hi : ℕ) → lo' ≤ lo → Ranked rank lo t hi → Ranked rank lo' t hi
  Ranked-from lo lo' leaf hi b h = omega arith
  Ranked-from lo lo' (node l p r) hi b h = (Ranked-from lo lo' l (rank p) b h.0, h.1)

  Ranked-to :
      (lo : ℕ) (t : Tree) (hi hi' : ℕ) → hi ≤ hi' → Ranked rank lo t hi → Ranked rank lo t hi'
  Ranked-to lo leaf hi hi' b h = omega arith
  Ranked-to lo (node l p r) hi hi' b h = (h.0, Ranked-to (suc (rank p)) r hi hi' b h.1)

  -- `avl_del_easy` puts the one child in the place of the node and repairs the tree up to the root.
  pub avl_del_easy-Turned :
      (fuel : ℕ) (s : Nodes) (lo : ℕ) (l : Tree) (p : ℕ) (r : Tree) (hi : ℕ) (c : Way)
      → Ranked rank lo (node l p r) hi
      → RankedPath rank first last lo hi c
      → Rep s (path_ptr c) (node l p r)
      → RepPath s p c
      → (ptr l ≡ 0) ⊎ (ptr r ≡ 0)
      → size (plug (only l r) c) < 2 ^ 31
      → length c ≤ fuel
      → Returns
          (Turned rank first last s 0 (ptr (climbed (only l r) c)) (climbed (only l r) c))
          (avl_del_easy fuel s p)
  unfolding avl_del_easy
  avl_del_easy-Turned fuel s lo leaf p r hi c ranks o h around one small enough =
      rw (deref-ok s p h.0.ne_null, one_child s p 0 (ptr r) h.0.left h.0.right (inl refl))
        (detached fuel s lo r hi p c h.0.ne_null ranks.0
          (Ranked-from (suc (rank p)) lo r hi (omega (arith, ranks.0)) ranks.1) o h.4 around small
          enough _ (s p).parent (child_left s p (ptr r) h.0.left h.0.right) h.0.parent)
  avl_del_easy-Turned fuel s lo (node a q b) p leaf hi c ranks o h around one small enough =
      let below = Ranked-le rank lo (node a q b) (rank p) ranks.0 in
      let above = Ranked-le rank (suc (rank p)) leaf hi ranks.1 in
      rw (deref-ok s p h.0.ne_null, one_child s p q 0 h.0.left h.0.right (inr refl))
        (detached fuel s lo (node a q b) hi p c h.0.ne_null below
          (Ranked-to lo (node a q b) (rank p) hi (omega arith) ranks.0) o h.3 around small enough _
          (s p).parent (child_right s p q h.0.left h.3.0.ne_null) h.0.parent)
  avl_del_easy-Turned fuel s lo (node a q b) p (node d x e) hi c ranks o h around one small enough =
      absurd (elim one [ inl u ↦ h.3.0.ne_null u | inr u ↦ h.4.0.ne_null u ])
