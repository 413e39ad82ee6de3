-- ===== src/Zset/Update.antt =====
-- The operations on a whole sorted set that keep its order.
use greenis.Prelude.{
  branch-true, ℕ, suc, ◌^◌, ◌<◌, ◌≡◌, ◌≢◌, sym, ap, ◌∙◌, subst, Bool, true, false, List, [], ◌∷◌,
  ◌++◌, arith, some, Run, ok, ◌>>=◌, require, Apart, Distinct, Distinct-without, Distinct-insert,
  Distinct-Apart, Returns, returns, Returns-bind, length,
}
use greenis.Bytes.{Bytes}
use greenis.Avl.{Nodes, avl_init, avl_del}
use greenis.Avl.Tree.{in_order}
use greenis.Avl.Store.{write-same, write-other, Rep-kept}
use greenis.Avl.Rank.{index_of, index_of-Apart, in_order-Ranked}
use greenis.Avl.Held.{IsHeld}
use greenis.Avl.Delete.{avl_del-Becomes}
use greenis.Zset.{
  ZNode, ZSet, set_member, rounds, zless_key, zless, tree_insert, zset_update, zset_seekge,
}
use greenis.Zset.Search.{Answers, first_or}
use greenis.Zset.Insert.{insert_below-Becomes}
use greenis.Zset.Seek.{seek-first}

-- The tree of the set has these nodes, from left to right.
abbrev pub IsOrder : ZSet → List ℕ → Type 0
IsOrder zset l = IsHeld zset.nodes zset.root l

-- Another store with the same nodes in the tree.
IsHeld-kept :
    (s s' : Nodes) (root : ℕ) (l : List ℕ) (p : ℕ)
    → IsHeld s root l
    → Distinct l
    → Apart p l
    → ((x : ℕ) → x ≢ p → s' x ≡ s x)
    → IsHeld s' root l
IsHeld-kept s s' root l p held distinct away same =
    let rank = index_of (in_order held.tree) in
    let end = index_of-Apart (in_order held.tree) p (subst (Apart p) (sym held.order) away) in
    record {
      tree = held.tree;
      top = held.top;
      rep =
          Rep-kept rank s s' 0 0 held.tree (length (in_order held.tree))
            (in_order-Ranked held.tree (subst Distinct (sym held.order) distinct))
            (λ x u v. same x (λ e. omega (arith, end, v, ap rank e))) held.rep;
      balanced = held.balanced;
      order = held.order;
    }

length-insert :
    (xs : List ℕ) (p : ℕ) (ys : List ℕ) → length (xs ++ p ∷ ys) ≡ suc (length (xs ++ ys))
length-insert [] p ys = omega arith
length-insert (x ∷ xs) p ys = ap suc (length-insert xs p ys)

module _ (ne lt : ℕ → ℕ → Bool) where
  -- `tree_insert` puts a new node behind the nodes that it is not less than and before the others.
  pub tree_insert-IsOrder :
      (zset : ZSet) (p : ℕ) (xs ys : List ℕ)
      → IsOrder zset (xs ++ ys)
      → Answers (zless ne lt zset.members p) false xs
      → Answers (zless ne lt zset.members p) true ys
      → Distinct (xs ++ p ∷ ys)
      → p ≢ 0
      → (zset.nodes p).left ≡ 0
      → (zset.nodes p).right ≡ 0
      → length (xs ++ p ∷ ys) < 2 ^ 31
      → length (xs ++ p ∷ ys) < rounds zset
      → Returns (λ made. IsOrder made (xs ++ p ∷ ys)) (tree_insert ne lt zset p)
  unfolding tree_insert
  tree_insert-IsOrder zset p xs ys held behind ahead distinct n el er small enough =
      Returns-bind
        (insert_below-Becomes (rounds zset) _ zset.nodes zset.root p xs ys held behind ahead
          distinct n el er small enough)
        λ (root, nodes) w. returns w.held

  update_step :
      (zset : ZSet) (p score : ℕ) (z : ZNode)
      → zset.members p ≡ some z
      → ne z.score score ≡ true
      → zset_update ne lt zset p score ≡ (
          avl_del (rounds zset) zset.nodes p >>= λ (root, nodes).
          tree_insert ne lt
            (record zset {
              root = root;
              nodes = avl_init nodes p;
              members = set_member zset.members p (some (record z { score = score }));
            })
            p)
  unfolding zset_update
  update_step zset p score z e f =
      ap
        (λ m. require m >>= λ z'. elim (ne z'.score score) as (λ _. Run ZSet) [
          | false ↦ ok zset
          | true ↦ avl_del (rounds zset) zset.nodes p >>= λ (root, nodes).
              tree_insert ne lt
                (record zset {
                  root = root;
                  nodes = avl_init nodes p;
                  members = set_member zset.members p (some (record z' { score = score }));
                })
                p
        ])
        e
      ∙ branch-true (ne z.score score) _ (ok zset) f

  -- `zset_update` with another score takes the node out of its place and puts it where its new score belongs: behind
  -- the nodes `zs` that it is not less than now and before the others, `ws`. The set has less than 2^31 members, and
  -- no more than its hash table counts.
  pub zset_update-moves :
      (zset : ZSet) (p score : ℕ) (z : ZNode) (xs ys zs ws : List ℕ)
      → zset.members p ≡ some z
      → ne z.score score ≡ true
      → IsOrder zset (xs ++ p ∷ ys)
      → Distinct (xs ++ p ∷ ys)
      → xs ++ ys ≡ zs ++ ws
      → Answers
          (zless ne lt (set_member zset.members p (some (record z { score = score }))) p)
          false
          zs
      → Answers
          (zless ne lt (set_member zset.members p (some (record z { score = score }))) p)
          true
          ws
      → p ≢ 0
      → length (xs ++ p ∷ ys) < 2 ^ 31
      → length (xs ++ p ∷ ys) < rounds zset
      → Returns (λ made. IsOrder made (zs ++ p ∷ ws)) (zset_update ne lt zset p score)
  unfolding avl_init
  zset_update-moves zset p score z xs ys zs ws here other held distinct e behind ahead n small
        enough =
      let size = length-insert xs p ys in
      let size' = length-insert zs p ws in
      let fresh =
        Distinct-insert zs p ws (subst Distinct e (Distinct-without xs p ys distinct))
          (subst (Apart p) e (Distinct-Apart xs p ys distinct)) in
      subst (Returns (λ made. IsOrder made (zs ++ p ∷ ws)))
        (sym (update_step zset p score z here other))
        (Returns-bind
          (avl_del-Becomes (rounds zset) zset.nodes zset.root xs p ys held distinct small
            (omega (arith, enough)))
          λ (root, nodes) w.
            let own =
              write-same nodes p
                (record { parent = 0; left = 0; right = 0; height = 1; cnt = 1 }) in
            tree_insert-IsOrder
              (record zset {
                root = root;
                nodes = avl_init nodes p;
                members = set_member zset.members p (some (record z { score = score }));
              })
              p zs ws
              (subst (IsHeld (avl_init nodes p) root) e (
                IsHeld-kept nodes (avl_init nodes p) root (xs ++ ys) p w.held
                  (Distinct-without xs p ys distinct) (Distinct-Apart xs p ys distinct)
                  (λ x d. write-other nodes p _ x d)))
              behind ahead fresh n (ap (λ m. m.left) own) (ap (λ m. m.right) own)
              (omega (arith, ap length e, size, size', small))
              (omega (arith, ap length e, size, size', enough)))

  -- When the members below the key stand before the others, `zset_seekge` returns the first of the others, or NULL
  -- if there is none.
  pub zset_seekge-first :
      (zset : ZSet) (score : ℕ) (name : Bytes) (xs ys : List ℕ)
      → IsOrder zset (xs ++ ys)
      → Answers (λ p. zless_key ne lt zset.members p score name) true xs
      → Answers (λ p. zless_key ne lt zset.members p score name) false ys
      → length (xs ++ ys) < rounds zset
      → zset_seekge ne lt zset score name ≡ ok (first_or 0 ys)
  unfolding zset_seekge
  zset_seekge-first zset score name xs ys held below above enough =
      seek-first _ zset.nodes (rounds zset) zset.root xs ys held below above enough
