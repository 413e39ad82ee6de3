-- ===== src/Avl/Way.antt =====
-- The way from a subtree up to the root: what stands around the subtree.
use greenis.Prelude.{ℕ, suc, ◌≤◌, ◌<◌, ◌≡◌, ◌⊎◌, inl, inr, refl, List, [], ◌∷◌, arith}
use greenis.Avl.{Nodes}
use greenis.Avl.Tree.{Tree, node, ptr}
use greenis.Avl.Store.{Links, Links-kept, Rep, Ranked, Ranked-le, Outside, Rep-kept}

-- A node whose left or right subtree is the one in question, with its other subtree.
pub data Frame : Type 0 where
  on_left : ℕ → Tree → Frame
  on_right : Tree → ℕ → Frame

-- From the subtree upwards.
abbrev pub Way : Type 0
Way = List Frame

abbrev pub close : Frame → Tree → Tree
close (on_left p r) t = node t p r
close (on_right l p) t = node l p t

abbrev pub plug : Tree → Way → Tree
plug t [] = t
plug t (f ∷ c) = plug (close f t) c

abbrev pub frame_ptr : Frame → ℕ
frame_ptr (on_left p r) = p
frame_ptr (on_right l p) = p

-- The parent of the subtree.
abbrev pub path_ptr : Way → ℕ
path_ptr [] = 0
path_ptr (f ∷ c) = frame_ptr f

-- The store holds what is around a subtree whose pointer is `x`. Heights and counts may be out of date.
abbrev pub RepPath : Nodes → ℕ → Way → Type 0
RepPath s x [] = Unit
RepPath s x (on_left p r ∷ c) = Links s (path_ptr c) p x (ptr r) × Rep s p r × RepPath s p c
RepPath s x (on_right l p ∷ c) = Links s (path_ptr c) p (ptr l) x × Rep s p l × RepPath s p c

module _ (rank : ℕ → ℕ) where
  -- The ranks around a subtree with those from `lo` to before `hi`, in a tree with those from `first`
  -- to before `last`.
  abbrev pub RankedPath : ℕ → ℕ → ℕ → ℕ → Way → Type 0
  RankedPath first last lo hi [] = (first ≡ lo) × (last ≡ hi)
  RankedPath first last lo hi (on_left p r ∷ c) =
      (hi ≡ rank p)
      × ((end : ℕ) × Ranked rank (suc (rank p)) r end × RankedPath first last lo end c)
  RankedPath first last lo hi (on_right l p ∷ c) =
      (lo ≡ suc (rank p))
      × ((start : ℕ) × Ranked rank start l (rank p) × RankedPath first last start hi c)

  -- A subtree and its surroundings, in the ranks of the whole.
  pub record Split (first last : ℕ) (t : Tree) (c : Way) : Type 0 where
    pub lo : ℕ
    pub hi : ℕ
    pub inner : Ranked rank lo t hi
    pub outer : RankedPath first last lo hi c

  pub plug-Split :
      (first last : ℕ) (t : Tree) (c : Way)
      → Ranked rank first (plug t c) last
      → Split first last t c
  plug-Split first last t [] h = record { lo = first; hi = last; inner = h; outer = (refl, refl) }
  plug-Split first last t (on_left p r ∷ c) h =
      let whole = plug-Split first last (node t p r) c h in
      record {
        lo = whole.lo;
        hi = rank p;
        inner = whole.inner.0;
        outer = (refl, (whole.hi, whole.inner.1, whole.outer));
      }
  plug-Split first last t (on_right l p ∷ c) h =
      let whole = plug-Split first last (node l p t) c h in
      record {
        lo = suc (rank p);
        hi = whole.hi;
        inner = whole.inner.1;
        outer = (refl, (whole.lo, whole.inner.0, whole.outer));
      }

  -- The ranks of the whole from those of the parts.
  pub plug-Ranked :
      (first last lo hi : ℕ) (t : Tree) (c : Way)
      → Ranked rank lo t hi
      → RankedPath first last lo hi c
      → Ranked rank first (plug t c) last
  plug-Ranked first last lo hi t [] h o = rw (o.0, o.1) h
  plug-Ranked first last lo hi t (on_left p r ∷ c) h (e, (end, right, o)) =
      plug-Ranked first last lo end (node t p r) c (rw e at h, right) o
  plug-Ranked first last lo hi t (on_right l p ∷ c) h (e, (start, left, o)) =
      plug-Ranked first last start hi (node l p t) c (left, rw e at h) o

  -- The surroundings are within the ranks of the whole.
  pub RankedPath-within :
      (first last lo hi : ℕ) (c : Way)
      → lo ≤ hi
      → RankedPath first last lo hi c
      → (first ≤ lo) × (hi ≤ last)
  RankedPath-within first last lo hi [] p o = (omega arith, omega arith)
  RankedPath-within first last lo hi (on_left q r ∷ c) p (e, (end, right, o)) =
      let step = Ranked-le rank (suc (rank q)) r end right in
      let rest = RankedPath-within first last lo end c (omega arith) o in
      (rest.0, omega (arith, rest.1))
  RankedPath-within first last lo hi (on_right l q ∷ c) p (e, (start, left, o)) =
      let step = Ranked-le rank start l (rank q) left in
      let rest = RankedPath-within first last start hi c (omega arith) o in
      (omega (arith, rest.0), rest.1)

  -- A change within the subtree leaves its surroundings.
  pub RepPath-kept :
      (s s' : Nodes) (x first last lo hi : ℕ) (c : Way)
      → lo ≤ hi
      → RankedPath first last lo hi c
      → Outside rank lo hi s s'
      → RepPath s x c
      → RepPath s' x c
  RepPath-kept s s' x first last lo hi [] p o a h = tt
  RepPath-kept s s' x first last lo hi (on_left q r ∷ c) p (e, (end, right, o)) a h =
      let step = Ranked-le rank (suc (rank q)) r end right in
      (
        Links-kept s s' (path_ptr c) q x (ptr r) h.0 (a q (inr (omega arith))),
        Rep-kept rank s s' q (suc (rank q)) r end right (λ y u v. a y (inr (omega arith))) h.1,
        RepPath-kept s s' q first last lo end c (omega arith) o (λ y u. a y (left_of y u)) h.2,
      )
    where
      left_of : (y : ℕ) → (rank y < lo) ⊎ (end ≤ rank y) → (rank y < lo) ⊎ (hi ≤ rank y)
      left_of y (inl u) = inl u
      left_of y (inr u) = inr (omega (arith, Ranked-le rank (suc (rank q)) r end right))
  RepPath-kept s s' x first last lo hi (on_right l q ∷ c) p (e, (start, left, o)) a h =
      let step = Ranked-le rank start l (rank q) left in
      (
        Links-kept s s' (path_ptr c) q (ptr l) x h.0 (a q (inl (omega arith))),
        Rep-kept rank s s' q start l (rank q) left (λ y u v. a y (inl (omega arith))) h.1,
        RepPath-kept s s' q first last start hi c (omega arith) o (λ y u. a y (right_of y u)) h.2,
      )
    where
      right_of : (y : ℕ) → (rank y < start) ⊎ (hi ≤ rank y) → (rank y < lo) ⊎ (hi ≤ rank y)
      right_of y (inl u) = inl (omega (arith, Ranked-le rank start l (rank q) left))
      right_of y (inr u) = inr u
