-- ===== src/Avl/Locate.antt =====
-- Where an address stands in a tree, and the first address of a subtree, which `avl_del` takes.
use greenis.Prelude.{
  ℕ, zero, suc, ◌<◌, ◌≡◌, refl, sym, ap, ◌∙◌, subst, List, [], ◌∷◌, ◌++◌, append_assoc, arith, ◌≢◌,
  true, false, ◌==◌, Run, ok, Returns, returns, Returns-map,
}
use greenis.Avl.{Nodes, null, leftmost}
use greenis.Avl.Tree.{Tree, leaf, node, size, in_order}
use greenis.Avl.Store.{Rep, not_null, deref-ok}
use greenis.Avl.Way.{on_left, on_right, Way, plug}
use greenis.Avl.Place.{before, after}

-- Two places in one list.
data Aligned (xs : List ℕ) (p : ℕ) (ys us : List ℕ) (q : ℕ) (vs : List ℕ) : Type 0 where
  same : us ≡ xs → q ≡ p → vs ≡ ys → Aligned xs p ys us q vs
  earlier : (m : List ℕ) → us ≡ xs ++ p ∷ m → ys ≡ m ++ q ∷ vs → Aligned xs p ys us q vs
  later : (m : List ℕ) → xs ≡ us ++ q ∷ m → vs ≡ m ++ p ∷ ys → Aligned xs p ys us q vs

first_of : ℕ → List ℕ → ℕ
first_of d [] = d
first_of d (x ∷ l) = x

tail_of : List ℕ → List ℕ
tail_of [] = []
tail_of (x ∷ l) = l

align :
    (xs : List ℕ) (p : ℕ) (ys us : List ℕ) (q : ℕ) (vs : List ℕ)
    → us ++ q ∷ vs ≡ xs ++ p ∷ ys
    → Aligned xs p ys us q vs
unfolding first_of tail_of
align [] p ys [] q vs e = same refl (ap (first_of 0) e) (ap tail_of e)
align [] p ys (u ∷ us) q vs e =
    earlier us (ap (λ x. x ∷ us) (ap (first_of 0) e)) (sym (ap tail_of e))
align (x ∷ xs) p ys [] q vs e = later xs (ap (λ z. z ∷ xs) (sym (ap (first_of 0) e))) (ap tail_of e)
align (x ∷ xs) p ys (u ∷ us) q vs e = further (align xs p ys us q vs (ap tail_of e))
  where
    head : u ≡ x
    head = ap (first_of 0) e

    further : Aligned xs p ys us q vs → Aligned (x ∷ xs) p ys (u ∷ us) q vs
    further (same a b c) = same (rw (head, a)) b c
    further (earlier m a b) = earlier m (rw (head, a)) b
    further (later m a b) = later m (rw (head, a)) b

-- The subtree of `p`, with the addresses around it.
pub record IsPlace (t : Tree) (c : Way) (xs : List ℕ) (p : ℕ) (ys : List ℕ) : Type 0 where
  pub left : Tree
  pub right : Tree
  pub path : Way
  pub whole : plug (node left p right) path ≡ plug t c
  pub smaller : before path ++ in_order left ≡ before c ++ xs
  pub larger : in_order right ++ after path ≡ ys ++ after c

pub locate :
    (t : Tree) (c : Way) (xs : List ℕ) (p : ℕ) (ys : List ℕ)
    → in_order t ≡ xs ++ p ∷ ys
    → IsPlace t c xs p ys
locate leaf c [] p ys e = absurd (no_address e)
  where
    no_address : [] ≡ p ∷ ys → ⊥
    no_address f = cc
locate leaf c (x ∷ xs) p ys e = absurd (no_address e)
  where
    no_address : [] ≡ x ∷ (xs ++ p ∷ ys) → ⊥
    no_address f = cc
locate (node l q r) c xs p ys e =
    found (align xs p ys (in_order l) q (in_order r) e) (λ zs. locate l (on_left q r ∷ c) xs p zs)
      (λ zs. locate r (on_right l q ∷ c) zs p ys)
  where
    found :
        Aligned xs p ys (in_order l) q (in_order r)
        → ((zs : List ℕ) → in_order l ≡ xs ++ p ∷ zs → IsPlace l (on_left q r ∷ c) xs p zs)
        → ((zs : List ℕ) → in_order r ≡ zs ++ p ∷ ys → IsPlace r (on_right l q ∷ c) zs p ys)
        → IsPlace (node l q r) c xs p ys
    found (same a b d) on_l on_r = record {
      left = l;
      right = r;
      path = c;
      whole = ap (λ x. plug (node l x r) c) (sym b);
      smaller = ap (λ x. before c ++ x) a;
      larger = ap (λ x. x ++ after c) d;
    }
    found (earlier m a b) on_l on_r =
        let deep = on_l m a in
        record {
          left = deep.left;
          right = deep.right;
          path = deep.path;
          whole = deep.whole;
          smaller = deep.smaller;
          larger =
              deep.larger
              ∙ sym (append_assoc m (q ∷ in_order r) (after c))
              ∙ ap (λ x. x ++ after c) (sym b);
        }
    found (later m a b) on_l on_r =
        let deep = on_r m b in
        record {
          left = deep.left;
          right = deep.right;
          path = deep.path;
          whole = deep.whole;
          smaller =
              deep.smaller
              ∙ append_assoc (before c) (in_order l ++ q ∷ []) m
              ∙ ap (λ x. before c ++ x) (append_assoc (in_order l) (q ∷ []) m ∙ sym a);
          larger = deep.larger;
        }

-- The first node of the subtree `t`.
pub record IsFirst (t : Tree) (c : Way) (v : ℕ) : Type 0 where
  pub right : Tree
  pub path : Way
  pub whole : plug (node leaf v right) path ≡ plug t c
  pub before_it : before path ≡ before c
  pub from_it : v ∷ (in_order right ++ after path) ≡ in_order t ++ after c

further_left :
    (fuel : ℕ) (s : Nodes) (q x : ℕ)
    → q ≢ 0
    → (s q).left ≡ x
    → x ≢ 0
    → leftmost (suc fuel) s q ≡ leftmost fuel s x
unfolding leftmost
further_left fuel s q x n e m = rw (deref-ok s q n) (at (s q).left e)
  where
    at :
        (y : ℕ)
        → y ≡ x
        → elim (y == null) as (λ _. Run ℕ) [ true ↦ ok q | false ↦ leftmost fuel s y ]
          ≡ leftmost fuel s x
    at y f = rw (not_null y (λ e. m (sym f ∙ e))) (ap (leftmost fuel s) f)

-- The loop down the left links ends at the first node.
pub leftmost-IsFirst :
    (fuel : ℕ) (s : Nodes) (par : ℕ) (l : Tree) (q : ℕ) (r : Tree) (c : Way)
    → Rep s par (node l q r)
    → size l < fuel
    → Returns (IsFirst (node l q r) c) (leftmost fuel s q)
unfolding leftmost
leftmost-IsFirst zero s par l q r c h enough = absurd (omega arith)
leftmost-IsFirst (suc fuel) s par leaf q r c h enough =
    rw (deref-ok s q h.0.ne_null, h.0.left)
      (returns (record { right = r; path = c; whole = refl; before_it = refl; from_it = refl }))
leftmost-IsFirst (suc fuel) s par (node a x b) q r c h enough =
    subst (Returns (IsFirst (node (node a x b) q r) c))
      (sym (further_left fuel s q x h.0.ne_null h.0.left h.3.0.ne_null))
      (Returns-map (leftmost-IsFirst fuel s q a x b (on_left q r ∷ c) h.3 (omega arith)) λ v w.
        record {
          right = w.right;
          path = w.path;
          whole = w.whole;
          before_it = w.before_it;
          from_it =
              w.from_it ∙ sym (append_assoc (in_order (node a x b)) (q ∷ in_order r) (after c));
        })
