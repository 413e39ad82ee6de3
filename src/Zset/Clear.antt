-- ===== src/Zset/Clear.antt =====
-- `zset_clear` frees the members of a set.
use greenis.HashTable.{hm_size, hm_clear}
use greenis.Prelude.{
  ap₂, ◌⊎◌, branch-false, ℕ, zero, suc, ◌<◌, ◌≡◌, ◌≢◌, refl, sym, ap, ◌∙◌, subst, List, [], ◌∷◌,
  ◌++◌, arith, All, All-append, All-left, All-map, All-right, Apart, none, ok, ◌>>=◌, Returns,
  returns, Returns-bind, length, ==_refl, ◌==◌, inl, inr, Bool-cases,
}
use greenis.Avl.{Nodes, null}
use greenis.Avl.Tree.{Tree, leaf, node, ptr, size, in_order}
use greenis.Avl.Store.{Rep, not_null, deref-ok}
use greenis.Avl.Place.{size-in_order}
use greenis.Zset.{Members, ZSet, set_member, rounds, tree_dispose, zset_clear}
use greenis.Zset.Update.{IsOrder}

-- The nodes of the list are freed, and no other.
pub record Freed (ms : Members) (l : List ℕ) (ms' : Members) : Type 0 where
  pub gone : All (λ x. ms' x ≡ none) l
  pub kept : (x : ℕ) → Apart x l → ms' x ≡ ms x
  pub each : (x : ℕ) → (ms' x ≡ none) ⊎ (ms' x ≡ ms x)

free_one : (ms : Members) (p x : ℕ) → ms x ≡ none → set_member ms p none x ≡ none
free_one ms p x h = elim (Bool-cases (x == p)) [ inl e ↦ rw e | inr e ↦ rw e h ]

dispose_step :
    (fuel : ℕ) (s : Nodes) (ms : Members) (p x y : ℕ)
    → p ≢ 0
    → (s p).left ≡ x
    → (s p).right ≡ y
    → tree_dispose (suc fuel) s ms p ≡ (
        tree_dispose fuel s ms x >>= λ ms1.
        tree_dispose fuel s ms1 y >>= λ ms2. ok (set_member ms2 p none))
unfolding tree_dispose
dispose_step fuel s ms p x y n e f =
    branch-false (p == null) (ok ms) _ (not_null p n)
    ∙ ap
        (λ m. m >>= λ n'. tree_dispose fuel s ms n'.left >>= λ ms1.
          tree_dispose fuel s ms1 n'.right >>= λ ms2. ok (set_member ms2 p none))
        (deref-ok s p n)
    ∙ ap₂
        (λ i j. tree_dispose fuel s ms i >>= λ ms1.
          tree_dispose fuel s ms1 j >>= λ ms2. ok (set_member ms2 p none))
        e f

dispose_end : (fuel : ℕ) (s : Nodes) (ms : Members) → tree_dispose (suc fuel) s ms 0 ≡ ok ms
unfolding tree_dispose
dispose_end fuel s ms = refl

Freed-node :
    (ms ms1 ms2 : Members) (xs : List ℕ) (p : ℕ) (ys : List ℕ)
    → Freed ms xs ms1
    → Freed ms1 ys ms2
    → Freed ms (xs ++ p ∷ ys) (set_member ms2 p none)
Freed-node ms ms1 ms2 xs p ys f g = record {
  gone =
      All-append _ xs (p ∷ ys)
        (All-map xs (λ x e. free_one ms2 p x (elim (g.each x) [ inl h ↦ h | inr h ↦ h ∙ e ]))
          f.gone)
        (rw (==_refl p), All-map ys (λ x e. free_one ms2 p x e) g.gone);
  kept = λ x a.
      let own = (All-right _ xs (p ∷ ys) a).0 in
      other ms2 x own
      ∙ g.kept x (All-right _ xs (p ∷ ys) a).1
      ∙ f.kept x (All-left _ xs (p ∷ ys) a);
  each = λ x. elim (Bool-cases (x == p)) [
    | inl e ↦ inl (rw e)
    | inr e ↦ rw e (elim (g.each x) [
      | inl h ↦ inl h
      | inr h ↦ elim (f.each x) [ inl k ↦ inl (h ∙ k) | inr k ↦ inr (h ∙ k) ]
    ])
  ];
}
  where
    other : (ms2 : Members) (x : ℕ) → p ≢ x → set_member ms2 p none x ≡ ms2 x
    other ms2 x d = ground arith

tree_dispose-Freed :
    (fuel : ℕ) (s : Nodes) (ms : Members) (par : ℕ) (t : Tree)
    → Rep s par t
    → size t < fuel
    → Returns (Freed ms (in_order t)) (tree_dispose fuel s ms (ptr t))
tree_dispose-Freed zero s ms par t h enough = absurd (omega arith)
tree_dispose-Freed (suc fuel) s ms par leaf h enough =
    subst (Returns (Freed ms [])) (sym (dispose_end fuel s ms))
      (returns (record { gone = tt; kept = λ x a. refl; each = λ x. inr refl }))
tree_dispose-Freed (suc fuel) s ms par (node l p r) h enough =
    subst (Returns (Freed ms (in_order (node l p r))))
      (sym (dispose_step fuel s ms p (ptr l) (ptr r) h.0.ne_null h.0.left h.0.right))
      (Returns-bind (tree_dispose-Freed fuel s ms p l h.3 (omega arith)) λ ms1 f.
        Returns-bind (tree_dispose-Freed fuel s ms1 p r h.4 (omega arith))
          λ ms2 g. returns (Freed-node ms ms1 ms2 (in_order l) p (in_order r) f g))

-- A cleared set has no root, its members have been freed, and nothing else has.
pub record Cleared (zset : ZSet) (l : List ℕ) (made : ZSet) : Type 0 where
  pub no_root : made.root ≡ 0
  pub no_nodes : hm_size made.hmap ≡ 0
  pub freed : Freed zset.members l made.members

-- `zset_clear` of a set with no more members than its hash table counts frees every member and no other node, and
-- leaves the set empty.
pub zset_clear-Cleared :
    (zset : ZSet) (l : List ℕ)
    → IsOrder zset l
    → length l < rounds zset
    → Returns (Cleared zset l) (zset_clear zset)
unfolding zset_clear hm_clear hm_size
zset_clear-Cleared zset l held enough =
    Returns-bind
      (subst
        (λ p. Returns (Freed zset.members l) (tree_dispose (rounds zset) zset.nodes zset.members p))
        (sym held.top)
        (subst
          (λ m.
            Returns (Freed zset.members m)
              (tree_dispose (rounds zset) zset.nodes zset.members (ptr held.tree)))
          held.order
          (tree_dispose-Freed (rounds zset) zset.nodes zset.members 0 held.tree held.rep
            (omega (arith, size-in_order held.tree, ap length held.order, enough)))))
      λ members f. returns (record { no_root = refl; no_nodes = refl; freed = f })
