-- ===== src/Zset/Search.antt =====
-- The search loops of the sorted set on a tree in the store.
use greenis.Prelude.{
  branch-false, ℕ, zero, suc, ◌<◌, ◌≡◌, ◌≢◌, refl, sym, ap, ap₂, ◌∙◌, subst, Bool, true, false,
  List, [], ◌∷◌, ◌++◌, append_assoc, append-nil, arith, All, All-left, All-right, Run, ok, ◌>>=◌,
  Returns, returns, Returns-map, ◌==◌, if◌then◌else◌,
}
use greenis.Avl.{Nodes, null}
use greenis.Avl.Tree.{Tree, leaf, node, ptr, size, in_order}
use greenis.Avl.Store.{Rep, not_null, deref-ok}
use greenis.Avl.Way.{Way, on_left, on_right, plug, path_ptr}
use greenis.Avl.Attach.{side}
use greenis.Avl.Place.{before, after}
use greenis.Zset.{search}

-- One more round of `search`.
search_step :
    (fuel : ℕ) (less : ℕ → Run Bool) (s : Nodes) (p x y : ℕ) (below : ℕ × Bool) (b : Bool)
    → p ≢ 0
    → (s p).left ≡ x
    → (s p).right ≡ y
    → less p ≡ ok b
    → search (suc fuel) less s p below ≡ search fuel less s (if b then x else y) (p, b)
unfolding search
search_step fuel less s p x y below b n e f g =
    branch-false (p == null) (ok below) _ (not_null p n)
    ∙ ap
        (λ m. m >>= λ n'.
          less p >>= λ first. search fuel less s (if first then n'.left else n'.right) (p, first))
        (deref-ok s p n)
    ∙ ap
        (λ m.
          m >>= λ first. search fuel less s (if first then (s p).left else (s p).right) (p, first))
        g
    ∙ ap₂ (λ i j. search fuel less s (if b then i else j) (p, b)) e f

search_end :
    (fuel : ℕ) (less : ℕ → Run Bool) (s : Nodes) (below : ℕ × Bool)
    → search (suc fuel) less s 0 below ≡ ok below
unfolding search
search_end fuel less s below = refl

-- The place that `search` finds in the tree: the addresses before it and after it.
pub record IsGap (whole : Tree) (xs ys : List ℕ) (r : ℕ × Bool) : Type 0 where
  pub path : Way
  pub found : r ≡ (path_ptr path, side path)
  pub same : plug leaf path ≡ whole
  pub before_it : before path ≡ xs
  pub after_it : after path ≡ ys

-- Where one list ends in another way to cut it.
pub data IsFork (xs ys us : List ℕ) (q : ℕ) (vs : List ℕ) : Type 0 where
  inside : (m : List ℕ) → us ≡ xs ++ m → ys ≡ m ++ q ∷ vs → IsFork xs ys us q vs
  beyond : (m : List ℕ) → xs ≡ us ++ q ∷ m → vs ≡ m ++ ys → IsFork xs ys us q vs

-- The first of the list, or `d`.
abbrev pub first_or : ℕ → List ℕ → ℕ
first_or d [] = d
first_or d (x ∷ l) = x

drop_first : List ℕ → List ℕ
drop_first [] = []
drop_first (x ∷ l) = l

pub fork :
    (xs ys us : List ℕ) (q : ℕ) (vs : List ℕ) → us ++ q ∷ vs ≡ xs ++ ys → IsFork xs ys us q vs
unfolding drop_first
fork [] ys us q vs e = inside us refl (sym e)
fork (x ∷ xs) ys [] q vs e =
    beyond xs (ap (λ z. z ∷ xs) (sym (ap (first_or 0) e))) (ap drop_first e)
fork (x ∷ xs) ys (u ∷ us) q vs e = further (fork xs ys us q vs (ap drop_first e))
  where
    head : u ≡ x
    head = ap (first_or 0) e

    further : IsFork xs ys us q vs → IsFork (x ∷ xs) ys (u ∷ us) q vs
    further (inside m a b) = inside m (rw (head, a)) b
    further (beyond m a b) = beyond m (rw (head, a)) b

-- The nodes of the list all answer `b`.
abbrev pub Answers : (ℕ → Run Bool) → Bool → List ℕ → Type 0
Answers less b l = All (λ x. less x ≡ ok b) l

module _ (less : ℕ → Run Bool) (s : Nodes) where
  pub search-IsGap :
      (fuel par : ℕ) (t : Tree) (c : Way) (xs ys : List ℕ)
      → Rep s par t
      → in_order t ≡ xs ++ ys
      → Answers less false xs
      → Answers less true ys
      → size t < fuel
      → Returns
          (IsGap (plug t c) (before c ++ xs) (ys ++ after c))
          (search fuel less s (ptr t) (path_ptr c, side c))
  search-IsGap zero par t c xs ys h e f g enough = absurd (omega arith)
  search-IsGap (suc fuel) par leaf c [] [] h e f g enough =
      subst (Returns (IsGap (plug leaf c) (before c ++ []) (after c)))
        (sym (search_end fuel less s (path_ptr c, side c)))
        (returns (record {
          path = c;
          found = refl;
          same = refl;
          before_it = sym (append-nil (before c));
          after_it = refl;
        }))
  search-IsGap (suc fuel) par leaf c [] (y ∷ ys) h e f g enough = absurd (no_nodes e)
    where
      no_nodes : [] ≡ y ∷ ys → ⊥
      no_nodes k = cc
  search-IsGap (suc fuel) par leaf c (x ∷ xs) ys h e f g enough = absurd (no_nodes e)
    where
      no_nodes : [] ≡ x ∷ (xs ++ ys) → ⊥
      no_nodes k = cc
  search-IsGap (suc fuel) par (node l q r) c xs ys h e f g enough =
      elim (fork xs ys (in_order l) q (in_order r) e) [
        | inside m a b ↦
            let parts = All-append-inv m q (in_order r) (subst (Answers less true) b g) in
            subst (Returns (IsGap (plug (node l q r) c) (before c ++ xs) (ys ++ after c)))
              (sym (
                search_step fuel less s q (ptr l) (ptr r) _ true h.0.ne_null h.0.left h.0.right
                  parts.1))
              (Returns-map
                (search-IsGap fuel q l (on_left q r ∷ c) xs m h.3 a f parts.0 (omega arith))
                λ v w. record {
                  path = w.path;
                  found = w.found;
                  same = w.same;
                  before_it = w.before_it;
                  after_it =
                      w.after_it
                      ∙ sym (append_assoc m (q ∷ in_order r) (after c))
                      ∙ ap (λ z. z ++ after c) (sym b);
                })
        | beyond m a b ↦
            let parts = All-append-inv' (in_order l) q m (subst (Answers less false) a f) in
            subst (Returns (IsGap (plug (node l q r) c) (before c ++ xs) (ys ++ after c)))
              (sym (
                search_step fuel less s q (ptr l) (ptr r) _ false h.0.ne_null h.0.left h.0.right
                  parts.0))
              (Returns-map
                (search-IsGap fuel q r (on_right l q ∷ c) m ys h.4 b parts.1 g (omega arith))
                λ v w. record {
                  path = w.path;
                  found = w.found;
                  same = w.same;
                  before_it =
                      w.before_it
                      ∙ append_assoc (before c) (in_order l ++ q ∷ []) m
                      ∙ ap (λ z. before c ++ z) (append_assoc (in_order l) (q ∷ []) m ∙ sym a);
                  after_it = w.after_it;
                })
      ]
    where
      All-append-inv :
          (m : List ℕ) (q : ℕ) (vs : List ℕ)
          → Answers less true (m ++ q ∷ vs)
          → Answers less true m × (less q ≡ ok true)
      All-append-inv m q vs k = (All-left _ m (q ∷ vs) k, (All-right _ m (q ∷ vs) k).0)

      All-append-inv' :
          (us : List ℕ) (q : ℕ) (m : List ℕ)
          → Answers less false (us ++ q ∷ m)
          → (less q ≡ ok false) × Answers less false m
      All-append-inv' us q m k = All-right _ us (q ∷ m) k
