-- ===== src/Avl/Exchange.antt =====
-- `avl_del` of a node with two children, from its successor on.
use greenis.Prelude.{
  ℕ, ◌^◌, ◌≤◌, ◌<◌, ◌≡◌, ◌≢◌, inr, sym, ap, subst, ◌∙◌, List, [], ◌∷◌, ◌++◌, append_assoc,
  append-nil, arith, Run, ok, ◌>>=◌, Apart, Distinct, Distinct-without, Distinct-Apart, All-without,
  Returns, Returns-bind, Returns-map, length, ◌==◌, if◌then◌else◌,
}
use greenis.Avl.{AvlNode, Nodes, null, deref, write, adopt, attach, is_left, avl_del_easy}
use greenis.Avl.Tree.{Tree, leaf, node, ptr, size, in_order}
use greenis.Avl.Store.{Rep, deref-ok, Turned}
use greenis.Avl.Way.{Way, on_right, plug}
use greenis.Avl.Repair.{climbed}
use greenis.Avl.Balance.{IsAvl, plug-BalancedPath, BalancedPath-plug}
use greenis.Avl.Rank.{index_of, index_of-Apart}
use greenis.Avl.Place.{before, after, in_order-parts, plug-Placed}
use greenis.Avl.Locate.{IsPlace, locate, IsFirst}
use greenis.Avl.Easy.{OneChild, no_left, in_order-only, in_order-climbed, easy-Turned, easy-IsAvl}
use greenis.Avl.Finish.{finish-Turned, finished}
use greenis.Avl.Held.{Becomes, Turned-Becomes}

-- The nodes around and below the node at the place.
abbrev pub others : Tree → Tree → Way → List ℕ
others l r c = (before c ++ in_order l) ++ (in_order r ++ after c)

pub easy-Becomes :
    (fuel : ℕ) (s : Nodes) (l : Tree) (p : ℕ) (r : Tree) (c : Way)
    → OneChild l r
    → Rep s 0 (plug (node l p r) c)
    → IsAvl (plug (node l p r) c)
    → Distinct (in_order (plug (node l p r) c))
    → size (plug (node l p r) c) < 2 ^ 31
    → size (plug (node l p r) c) ≤ fuel
    → Returns (Becomes s (in_order (plug (node l p r) c)) (others l r c)) (avl_del_easy fuel s p)
easy-Becomes fuel s l p r c one h balanced distinct small enough =
    Returns-map (easy-Turned fuel s l p r c one h distinct small enough) λ w t.
      Turned-Becomes s _ (others l r c) _ w (easy-IsAvl l p r c one balanced)
        (in_order-climbed _ c
          ∙ ap (λ x. before c ++ x)
              (ap (λ x. x ++ after c) (in_order-only l r one)
                ∙ append_assoc (in_order l) (in_order r) (after c))
          ∙ sym (append_assoc (before c) (in_order l) (in_order r ++ after c)))
        t

around-parts :
    (l : Tree) (p : ℕ) (r : Tree) (c : Way)
    → in_order (plug (node l p r) c) ≡ (before c ++ in_order l) ++ p ∷ (in_order r ++ after c)
around-parts l p r c =
    in_order-parts (node l p r) c
    ∙ ap (λ x. before c ++ x) (append_assoc (in_order l) (p ∷ in_order r) (after c))
    ∙ sym (append_assoc (before c) (in_order l) (p ∷ (in_order r ++ after c)))

-- What `avl_del` does after it has found the successor.
abbrev replace_by : Nodes → ℕ → ℕ → ℕ → AvlNode → Run (ℕ × Nodes)
replace_by s p v root m =
    let s4 : Nodes = adopt (adopt (write s v m) m.left v) m.right v in
    is_left s4 m.parent p >>= λ on_left.
    ok (if m.parent == null then v else root, attach s4 m.parent on_left v)

abbrev pub exchange : ℕ → Nodes → ℕ → ℕ → Run (ℕ × Nodes)
exchange fuel s p v =
    avl_del_easy fuel s v >>= λ (root, s1). deref s1 p >>= λ m. replace_by s1 p v root m

module _ (l : Tree) (p : ℕ) (r : Tree) (c : Way) (v : ℕ)
    (first : IsFirst r (on_right l p ∷ c) v) where
  without-order :
      in_order (climbed first.right first.path)
      ≡ (before c ++ in_order l) ++ p ∷ (in_order first.right ++ after first.path)
  without-order =
      in_order-climbed first.right first.path
      ∙ ap (λ x. x ++ (in_order first.right ++ after first.path))
          (first.before_it ∙ sym (append_assoc (before c) (in_order l) (p ∷ [])))
      ∙ append_assoc (before c ++ in_order l) (p ∷ []) (in_order first.right ++ after first.path)

  place :
      IsPlace
        (climbed first.right first.path)
        []
        (before c ++ in_order l)
        p
        (in_order first.right ++ after first.path)
  place = locate (climbed first.right first.path) [] _ p _ without-order

  swapped-order : in_order (plug (node place.left v place.right) place.path) ≡ others l r c
  swapped-order =
      around-parts place.left v place.right place.path
      ∙ ap (λ x. x ++ v ∷ (in_order place.right ++ after place.path)) place.smaller
      ∙ ap (λ x. (before c ++ in_order l) ++ v ∷ x)
          (place.larger ∙ append-nil (in_order first.right ++ after first.path))
      ∙ ap (λ x. (before c ++ in_order l) ++ x) first.from_it

  pub exchange-Becomes :
      (fuel : ℕ) (s : Nodes)
      → Rep s 0 (plug (node l p r) c)
      → IsAvl (plug (node l p r) c)
      → Distinct (in_order (plug (node l p r) c))
      → size (plug (node l p r) c) < 2 ^ 31
      → size (plug (node l p r) c) ≤ fuel
      → Returns (Becomes s (in_order (plug (node l p r) c)) (others l r c)) (exchange fuel s p v)
  exchange-Becomes fuel s h balanced distinct small enough =
      let whole : Tree = plug (node leaf v first.right) first.path in
      let back = sym first.whole in
      let h2 : Rep s 0 whole = subst (Rep s 0) back h in
      let found = plug-Placed s (node leaf v first.right) first.path h2 in
      Returns-bind
        (easy-Turned fuel s leaf v first.right first.path (no_left first.right) h2
          (subst (λ t. Distinct (in_order t)) back distinct)
          (subst (λ t. size t < 2 ^ 31) back small) (subst (λ t. size t ≤ fuel) back enough))
        λ (root, s1) w. end_of root s1 found.inner.0.ne_null w
    where
      end_of :
          (root : ℕ) (s1 : Nodes)
          → v ≢ 0
          → Turned
              (index_of (in_order (plug (node leaf v first.right) first.path)))
              0
              (length (in_order (plug (node leaf v first.right) first.path)))
              s
              0
              (ptr (climbed first.right first.path))
              (climbed first.right first.path)
              (root, s1)
          → Returns
              (Becomes s (in_order (plug (node l p r) c)) (others l r c))
              (deref s1 p >>= λ m. replace_by s1 p v root m)
      end_of root s1 n w =
          let a = place.left in
          let b = place.right in
          let d = place.path in
          let h3 = plug-Placed s1 (node a p b) d (subst (Rep s1 0) (sym place.whole) w.rep) in
          let parts : Distinct ((before c ++ in_order l) ++ p ∷ (in_order r ++ after c)) =
            subst Distinct (around-parts l p r c) distinct in
          let apart : Apart p (others l r c) = Distinct-Apart (before c ++ in_order l) p _ parts in
          let less : Distinct (others l r c) =
            Distinct-without (before c ++ in_order l) p _ parts in
          let shrunk : IsAvl (climbed first.right first.path) =
            easy-IsAvl leaf v first.right first.path (no_left first.right)
              (subst IsAvl (sym first.whole) balanced) in
          let around = plug-BalancedPath (node a p b) d (subst IsAvl (sym place.whole) shrunk) in
          rw (deref-ok s1 p h3.inner.0.ne_null) (
            Returns-map
              (finished s1 a p b v root d (s1 p).left (s1 p).right (s1 p).parent h3.inner.0.left
                h3.inner.0.right h3.inner.0.parent
                (finish-Turned s1 a p b v root d h3 n (w.top ∙ ap ptr (sym place.whole))
                  (subst Distinct (sym swapped-order) less)
                  (subst (Apart p) (sym swapped-order) apart)))
              λ r' t.
                let last =
                  Turned-Becomes s1 _ (others l r c) (plug (node a v b) d) r'
                    (BalancedPath-plug (node a v b) d around.0 around.1) swapped-order t in
                record {
                  held = last.held;
                  untouched = λ x away.
                      last.untouched x (
                        subst (Apart x) (sym swapped-order) (
                          All-without (λ y. y ≢ x) (before c ++ in_order l) p _
                            (subst (Apart x) (around-parts l p r c) away)))
                      ∙ w.outside x (
                          inr (
                            omega (
                              arith,
                              index_of-Apart _ x
                                  (subst (λ z. Apart x (in_order z)) (sym first.whole) away),
                            )));
                })
