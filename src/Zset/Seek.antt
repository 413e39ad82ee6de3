-- ===== src/Zset/Seek.antt =====
-- `zset_seekge` on a tree in the store.
use greenis.Prelude.{
  branch-false, ℕ, zero, suc, ◌<◌, ◌≡◌, ◌≢◌, refl, sym, ap, ap₂, ◌∙◌, subst, Bool, true, false,
  List, [], ◌∷◌, ◌++◌, arith, All-left, All-right, Run, ok, ◌>>=◌, length, ◌==◌, if◌then◌else◌,
}
use greenis.Avl.{Nodes, null}
use greenis.Avl.Tree.{Tree, leaf, node, ptr, size, in_order}
use greenis.Avl.Store.{Rep, not_null, deref-ok}
use greenis.Avl.Place.{size-in_order}
use greenis.Avl.Held.{IsHeld}
use greenis.Zset.{seek}
use greenis.Zset.Search.{inside, beyond, fork, first_or, Answers}

seek_end :
    (fuel : ℕ) (less : ℕ → Run Bool) (s : Nodes) (found : ℕ)
    → seek (suc fuel) less s 0 found ≡ ok found
unfolding seek
seek_end fuel less s found = refl

-- One more round of `seek`.
seek_step :
    (fuel : ℕ) (less : ℕ → Run Bool) (s : Nodes) (p x y found : ℕ) (b : Bool)
    → p ≢ 0
    → (s p).left ≡ x
    → (s p).right ≡ y
    → less p ≡ ok b
    → seek (suc fuel) less s p found
      ≡ seek fuel less s (if b then y else x) (if b then found else p)
unfolding seek
seek_step fuel less s p x y found b n e f g =
    branch-false (p == null) (ok found) _ (not_null p n)
    ∙ ap
        (λ m. m >>= λ n'. less p >>= λ small.
          seek fuel less s (if small then n'.right else n'.left) (if small then found else p))
        (deref-ok s p n)
    ∙ ap
        (λ m. m >>= λ small.
          seek fuel less s (if small then (s p).right else (s p).left) (if small then found else p))
        g
    ∙ ap₂ (λ i j. seek fuel less s (if b then j else i) (if b then found else p)) e f

module _ (less : ℕ → Run Bool) (s : Nodes) where
  seek_tree :
      (fuel par : ℕ) (t : Tree) (found : ℕ) (xs ys : List ℕ)
      → Rep s par t
      → in_order t ≡ xs ++ ys
      → Answers less true xs
      → Answers less false ys
      → size t < fuel
      → seek fuel less s (ptr t) found ≡ ok (first_or found ys)
  seek_tree zero par t found xs ys h e f g enough = absurd (omega arith)
  seek_tree (suc fuel) par leaf found [] [] h e f g enough = seek_end fuel less s found
  seek_tree (suc fuel) par leaf found [] (y ∷ ys) h e f g enough = absurd (no_nodes e)
    where
      no_nodes : [] ≡ y ∷ ys → ⊥
      no_nodes k = cc
  seek_tree (suc fuel) par leaf found (x ∷ xs) ys h e f g enough = absurd (no_nodes e)
    where
      no_nodes : [] ≡ x ∷ (xs ++ ys) → ⊥
      no_nodes k = cc
  seek_tree (suc fuel) par (node l q r) found xs ys h e f g enough =
      elim (fork xs ys (in_order l) q (in_order r) e) [
        | inside m a b ↦
            let k = subst (Answers less false) b g in
            seek_step fuel less s q (ptr l) (ptr r) found false h.0.ne_null h.0.left h.0.right
              (All-right _ m (q ∷ in_order r) k).0
            ∙ seek_tree fuel q l q xs m h.3 a f (All-left _ m (q ∷ in_order r) k) (omega arith)
            ∙ ap ok (first_append q m found (in_order r) ∙ sym (ap (first_or found) b))
        | beyond m a b ↦
            let k = All-right _ (in_order l) (q ∷ m) (subst (Answers less true) a f) in
            seek_step fuel less s q (ptr l) (ptr r) found true h.0.ne_null h.0.left h.0.right k.0
            ∙ seek_tree fuel q r found m ys h.4 b k.1 g (omega arith)
      ]
    where
      first_append :
          (q : ℕ) (m : List ℕ) (d : ℕ) (vs : List ℕ) → first_or q m ≡ first_or d (m ++ q ∷ vs)
      first_append q [] d vs = refl
      first_append q (x ∷ m) d vs = refl

  -- When the nodes below the key stand before the others, `zset_seekge` returns the first of the others, or NULL.
  pub seek-first :
      (fuel root : ℕ) (xs ys : List ℕ)
      → IsHeld s root (xs ++ ys)
      → Answers less true xs
      → Answers less false ys
      → length (xs ++ ys) < fuel
      → seek fuel less s root 0 ≡ ok (first_or 0 ys)
  seek-first fuel root xs ys held below above enough =
      ap (λ r. seek fuel less s r 0) held.top
      ∙ seek_tree fuel 0 held.tree 0 xs ys held.rep held.order below above
          (omega (arith, size-in_order held.tree, ap length held.order, enough))
