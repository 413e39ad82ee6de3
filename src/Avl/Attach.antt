-- ===== src/Avl/Attach.antt =====
-- The link of a parent to a subtree: which side it is, and what a write to it changes.
use greenis.Prelude.{
  subst, ℕ, suc, ◌≤◌, ◌<◌, ◌≡◌, ◌≢◌, ◌⊎◌, inl, inr, refl, sym, ap, ◌∙◌, arith, [], ◌∷◌, Bool, true,
  false, ok, Bool-cases, ==_refl, ◌==◌, if◌then◌else◌,
}
use greenis.Avl.{Nodes, set_left, set_right, attach, is_left}
use greenis.Avl.Tree.{Tree, ptr}
use greenis.Avl.Store.{
  Rep, not_null, deref-ok, write-same, write-other, Ranked, Ranked-le, rank_apart, Rep-kept,
  ptr-apart, Outside, Turned,
}
use greenis.Avl.Way.{
  on_left, on_right, Way, path_ptr, RepPath, RankedPath, RankedPath-within, RepPath-kept,
}

-- Whether the subtree is a left one. A root counts as one.
abbrev pub side : Way → Bool
side [] = true
side (on_left q r ∷ c) = true
side (on_right l q ∷ c) = false

module _ (rank : ℕ → ℕ) (first last : ℕ) where
  -- The subtree `t` hangs in its place, and the store has no change beyond the whole.
  pub record Hung (s : Nodes) (c : Way) (t : Tree) (r : ℕ × Nodes) : Type 0 where
    pub top : r.0 ≡ ptr t
    pub rep : Rep r.1 (path_ptr c) t
    pub around : RepPath r.1 (ptr t) c
    pub outside : Outside rank first last s r.1

  pub is_left-side :
      (s : Nodes) (p lo hi : ℕ) (c : Way)
      → p ≢ 0
      → lo ≤ rank p
      → RankedPath rank first last lo hi c
      → RepPath s p c
      → is_left s (path_ptr c) p ≡ ok (side c)
  unfolding is_left
  is_left-side s p lo hi [] n b o h = refl
  is_left-side s p lo hi (on_left q r ∷ c) n b o h =
      rw (not_null q h.0.ne_null, deref-ok s q h.0.ne_null, h.0.left, ==_refl p)
  is_left-side s p lo hi (on_right l q ∷ c) n b (e, (start, left, o)) h = rw (
    not_null q h.0.ne_null,
    deref-ok s q h.0.ne_null,
    h.0.left,
    apart (ptr l) (ptr-apart rank s q start l (rank q) p left n (inr (omega arith))),
  )
    where
      apart : (x : ℕ) → x ≢ p → (x == p) ≡ false
      apart x d = ground arith

  attach-some :
      (s : Nodes) (q : ℕ) (b : Bool) (y : ℕ)
      → q ≢ 0
      → attach s q b y ≡ (if b then set_left s q y else set_right s q y)
  attach-some s q b y n = rw (not_null q n)

  pub attach-RepPath :
      (s : Nodes) (x y lo hi : ℕ) (c : Way)
      → lo ≤ hi
      → RankedPath rank first last lo hi c
      → RepPath s x c
      → RepPath (attach s (path_ptr c) (side c) y) y c
  attach-RepPath s x y lo hi [] b o h = tt
  attach-RepPath s x y lo hi (on_left q r ∷ c) b (e, (end, right, o)) h =
      let own = write-same s q (record (s q) { left = y }) in
      let far : (z : ℕ) → (rank z < rank q) ⊎ (rank q < rank z) → set_left s q y z ≡ s z =
        λ z d. write-other s q _ z (rank_apart rank z q d) in
      let step = Ranked-le rank (suc (rank q)) r end right in
      subst (λ s'. RepPath s' y (on_left q r ∷ c)) (sym (attach-some s q true y h.0.ne_null))
        (
          record {
            ne_null = h.0.ne_null;
            parent = ap (λ n. n.parent) own ∙ h.0.parent;
            left = ap (λ n. n.left) own;
            right = ap (λ n. n.right) own ∙ h.0.right;
          },
          Rep-kept rank s _ q (suc (rank q)) r end right (λ z m n. far z (inr m)) h.1,
          RepPath-kept rank s _ q first last lo end c (omega arith) o
              (λ z d. far z (beyond z d step)) h.2,
        )
    where
      beyond :
          (z : ℕ)
          → (rank z < lo) ⊎ (end ≤ rank z)
          → suc (rank q) ≤ end
          → (rank z < rank q) ⊎ (rank q < rank z)
      beyond z (inl d) u = inl (omega arith)
      beyond z (inr d) u = inr (omega arith)
  attach-RepPath s x y lo hi (on_right l q ∷ c) b (e, (start, left, o)) h =
      let own = write-same s q (record (s q) { right = y }) in
      let far : (z : ℕ) → (rank z < rank q) ⊎ (rank q < rank z) → set_right s q y z ≡ s z =
        λ z d. write-other s q _ z (rank_apart rank z q d) in
      let step = Ranked-le rank start l (rank q) left in
      subst (λ s'. RepPath s' y (on_right l q ∷ c)) (sym (attach-some s q false y h.0.ne_null))
        (
          record {
            ne_null = h.0.ne_null;
            parent = ap (λ n. n.parent) own ∙ h.0.parent;
            left = ap (λ n. n.left) own ∙ h.0.left;
            right = ap (λ n. n.right) own;
          },
          Rep-kept rank s _ q start l (rank q) left (λ z m n. far z (inl n)) h.1,
          RepPath-kept rank s _ q first last start hi c (omega arith) o
              (λ z d. far z (beyond z d step)) h.2,
        )
    where
      beyond :
          (z : ℕ)
          → (rank z < start) ⊎ (hi ≤ rank z)
          → start ≤ rank q
          → (rank z < rank q) ⊎ (rank q < rank z)
      beyond z (inl d) u = inl (omega arith)
      beyond z (inr d) u = inr (omega arith)

  -- The write to the link of the parent is outside the subtree and inside the whole.
  pub attach-far :
      (s : Nodes) (x y lo hi : ℕ) (c : Way)
      → lo ≤ hi
      → RankedPath rank first last lo hi c
      → (z : ℕ) → ((lo ≤ rank z) × (rank z < hi)) ⊎ ((rank z < first) ⊎ (last ≤ rank z))
      → attach s (path_ptr c) (side c) y z ≡ s z
  attach-far s x y lo hi [] b o z d = refl
  attach-far s x y lo hi (on_left q r ∷ c) b (e, (end, right, o)) z d =
      let within =
        RankedPath-within rank first last lo hi (on_left q r ∷ c) b (e, (end, right, o)) in
      let step = Ranked-le rank (suc (rank q)) r end right in
      let rest = RankedPath-within rank first last lo end c (omega arith) o in
      elim (Bool-cases (q == 0)) [
        | inl n ↦ rw n
        | inr n ↦ rw n (write-other s q _ z (rank_apart rank z q (beyond z d within.0 rest.1 step)))
      ]
    where
      beyond :
          (z : ℕ)
          → ((lo ≤ rank z) × (rank z < hi)) ⊎ ((rank z < first) ⊎ (last ≤ rank z))
          → first ≤ lo
          → end ≤ last
          → suc (rank q) ≤ end
          → (rank z < rank q) ⊎ (rank q < rank z)
      beyond z (inl u) f g i = inl (omega (arith, u.1))
      beyond z (inr (inl u)) f g i = inl (omega arith)
      beyond z (inr (inr u)) f g i = inr (omega arith)
  attach-far s x y lo hi (on_right l q ∷ c) b (e, (start, left, o)) z d =
      let step = Ranked-le rank start l (rank q) left in
      let rest = RankedPath-within rank first last start hi c (omega arith) o in
      elim (Bool-cases (q == 0)) [
        | inl n ↦ rw n
        | inr n ↦ rw n (write-other s q _ z (rank_apart rank z q (beyond z d rest.0 rest.1 step)))
      ]
    where
      beyond :
          (z : ℕ)
          → ((lo ≤ rank z) × (rank z < hi)) ⊎ ((rank z < first) ⊎ (last ≤ rank z))
          → first ≤ start
          → hi ≤ last
          → start ≤ rank q
          → (rank z < rank q) ⊎ (rank q < rank z)
      beyond z (inl u) f g i = inr (omega (arith, u.0))
      beyond z (inr (inl u)) f g i = inl (omega arith)
      beyond z (inr (inr u)) f g i = inr (omega arith)

  -- A repaired subtree is attached.
  pub attach-Hung :
      (s : Nodes) (p lo hi : ℕ) (c : Way) (t : Tree) (x : ℕ) (s' : Nodes)
      → Ranked rank lo t hi
      → RankedPath rank first last lo hi c
      → RepPath s p c
      → Turned rank lo hi s (path_ptr c) (ptr t) t (x, s')
      → Hung s c t (x, attach s' (path_ptr c) (side c) x)
  attach-Hung s p lo hi c t x s' ranks o around w =
      let b = Ranked-le rank lo t hi ranks in
      let within = RankedPath-within rank first last lo hi c b o in
      record {
        top = w.top;
        rep =
            Rep-kept rank s' _ (path_ptr c) lo t hi ranks
              (λ z m n. attach-far s' p x lo hi c b o z (inl (m, n))) w.rep;
        around =
            subst (λ y. RepPath (attach s' (path_ptr c) (side c) x) y c) w.top
              (attach-RepPath s' p x lo hi c b o
                (RepPath-kept rank s s' p first last lo hi c b o w.outside around));
        outside = λ z d.
            attach-far s' p x lo hi c b o z (inr d) ∙ w.outside z (wider within.0 within.1 z d);
      }
    where
      wider :
          first ≤ lo
          → hi ≤ last
          → (z : ℕ) → (rank z < first) ⊎ (last ≤ rank z)
          → (rank z < lo) ⊎ (hi ≤ rank z)
      wider f g z (inl d) = inl (omega arith)
      wider f g z (inr d) = inr (omega arith)
