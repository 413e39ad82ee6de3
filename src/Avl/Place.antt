-- ===== src/Avl/Place.antt =====
-- The place of a node in a tree in the store.
use greenis.Prelude.{
  length-append, ℕ, ◌+◌, ◌≤◌, ◌≡◌, ◌≢◌, refl, sym, ap, ◌∙◌, List, [], ◌∷◌, ◌++◌, append_assoc,
  append-nil, arith, false, inl, inr, Bool-cases, Apart, ◌==◌, if◌then◌else◌, length,
}
use greenis.Avl.{Nodes}
use greenis.Avl.Tree.{Tree, leaf, node, ptr, height, size, in_order}
use greenis.Avl.Store.{Rep}
use greenis.Avl.Way.{on_left, on_right, Way, close, plug, frame_ptr, path_ptr, RepPath}

-- The addresses before and after the subtree.
abbrev pub before : Way → List ℕ
before [] = []
before (on_left p r ∷ c) = before c
before (on_right l p ∷ c) = before c ++ (in_order l ++ p ∷ [])

abbrev pub after : Way → List ℕ
after [] = []
after (on_left p r ∷ c) = p ∷ (in_order r ++ after c)
after (on_right l p ∷ c) = after c

pub in_order-parts :
    (t : Tree) (c : Way) → in_order (plug t c) ≡ before c ++ (in_order t ++ after c)
in_order-parts t [] = sym (append-nil (in_order t))
in_order-parts t (on_left p r ∷ c) =
    in_order-parts (node t p r) c
    ∙ ap (λ x. before c ++ x) (append_assoc (in_order t) (p ∷ in_order r) (after c))
in_order-parts t (on_right l p ∷ c) =
    in_order-parts (node l p t) c
    ∙ ap (λ x. before c ++ x) (append_assoc (in_order l) (p ∷ in_order t) (after c))
    ∙ sym (
        append_assoc (before c) (in_order l ++ p ∷ []) (in_order t ++ after c)
        ∙ ap (λ x. before c ++ x) (append_assoc (in_order l) (p ∷ []) (in_order t ++ after c)))

pub length-le-size : (t : Tree) (c : Way) → length c + size t ≤ size (plug t c)
length-le-size t [] = omega arith
length-le-size t (on_left p r ∷ c) = omega (arith, length-le-size (node t p r) c)
length-le-size t (on_right l p ∷ c) = omega (arith, length-le-size (node l p t) c)

-- The heights and counts above the subtree are right.
abbrev pub Measured : Nodes → Tree → Way → Type 0
Measured s t [] = Unit
Measured s t (f ∷ c) =
    ((s (frame_ptr f)).height ≡ height (close f t))
    × ((s (frame_ptr f)).cnt ≡ size (close f t))
    × Measured s (close f t) c

-- What a store that holds a tree has at a place.
pub record Placed (s : Nodes) (t : Tree) (c : Way) : Type 0 where
  pub inner : Rep s (path_ptr c) t
  pub outer : RepPath s (ptr t) c
  pub measured : Measured s t c

pub plug-Placed : (s : Nodes) (t : Tree) (c : Way) → Rep s 0 (plug t c) → Placed s t c
plug-Placed s t [] h = record { inner = h; outer = tt; measured = tt }
plug-Placed s t (on_left p r ∷ c) h =
    let up = plug-Placed s (node t p r) c h in
    record {
      inner = up.inner.3;
      outer = (up.inner.0, up.inner.4, up.outer);
      measured = (up.inner.1, up.inner.2, up.measured);
    }
plug-Placed s t (on_right l p ∷ c) h =
    let up = plug-Placed s (node l p t) c h in
    record {
      inner = up.inner.4;
      outer = (up.inner.0, up.inner.3, up.outer);
      measured = (up.inner.1, up.inner.2, up.measured);
    }

pub Placed-plug : (s : Nodes) (t : Tree) (c : Way) → Placed s t c → Rep s 0 (plug t c)
Placed-plug s t [] h = h.inner
Placed-plug s t (on_left p r ∷ c) h = Placed-plug s (node t p r) c record {
  inner = (h.outer.0, h.measured.0, h.measured.1, h.inner, h.outer.1);
  outer = h.outer.2;
  measured = h.measured.2;
}
Placed-plug s t (on_right l p ∷ c) h = Placed-plug s (node l p t) c record {
  inner = (h.outer.0, h.measured.0, h.measured.1, h.outer.1, h.inner);
  outer = h.outer.2;
  measured = h.measured.2;
}

-- The heights and counts stay when another store and another subtree have the same.
pub Measured-same :
    (s s' : Nodes) (t t' : Tree) (c : Way)
    → ((x : ℕ) → (s' x).height ≡ (s x).height)
    → ((x : ℕ) → (s' x).cnt ≡ (s x).cnt)
    → height t' ≡ height t
    → size t' ≡ size t
    → Measured s t c
    → Measured s' t' c
Measured-same s s' t t' [] h k e f m = tt
Measured-same s s' t t' (on_left p r ∷ c) h k e f m = (
  omega (arith, h p, m.0, e),
  omega (arith, k p, m.1, f),
  Measured-same s s' (node t p r) (node t' p r) c h k (omega (arith, e)) (omega (arith, f)) m.2,
)
Measured-same s s' t t' (on_right l p ∷ c) h k e f m = (
  omega (arith, h p, m.0, e),
  omega (arith, k p, m.1, f),
  Measured-same s s' (node l p t) (node l p t') c h k (omega (arith, e)) (omega (arith, f)) m.2,
)

-- The list without `p`.
abbrev pub remove : ℕ → List ℕ → List ℕ
remove p [] = []
remove p (x ∷ l) = if x == p then remove p l else x ∷ remove p l

pub remove-Apart : (p : ℕ) (l : List ℕ) → Apart p l → remove p l ≡ l
remove-Apart p [] h = refl
remove-Apart p (x ∷ l) h = rw (other h.0) (ap (λ m. x ∷ m) (remove-Apart p l h.1))
  where
    other : x ≢ p → (x == p) ≡ false
    other d = ground arith

pub remove-append : (p : ℕ) (xs ys : List ℕ) → remove p (xs ++ ys) ≡ remove p xs ++ remove p ys
remove-append p [] ys = refl
remove-append p (x ∷ xs) ys = elim (Bool-cases (x == p)) [
  | inl e ↦ rw e (remove-append p xs ys)
  | inr e ↦ rw e (ap (λ m. x ∷ m) (remove-append p xs ys))
]

pub size-in_order : (t : Tree) → length (in_order t) ≡ size t
size-in_order leaf = refl
size-in_order (node l p r) =
    length-append (in_order l) (p ∷ in_order r) ∙ omega (arith, size-in_order l, size-in_order r)
