-- ===== src/Avl/Swap.antt =====
-- The end of `avl_del`: the successor takes the place of the node.
use greenis.Prelude.{
  ℕ, suc, ◌≤◌, ◌<◌, ◌≡◌, ◌≢◌, ◌⊎◌, inl, inr, refl, ap, ◌∙◌, [], ◌∷◌, arith, Bool, true, false,
  Bool-cases, ◌==◌, if◌then◌else◌,
}
use greenis.Avl.{Nodes, write, set_left, set_right, adopt, attach}
use greenis.Avl.Tree.{Tree, node, ptr}
use greenis.Avl.Store.{
  Rep, write-same, write-other, Ranked, Ranked-le, rank_apart, Rep-kept, Rep-adopt, adopt-out,
  Outside, Turned,
}
use greenis.Avl.Way.{on_left, on_right, Way, plug, path_ptr, RankedPath}
use greenis.Avl.Attach.{side, attach-Hung}
use greenis.Avl.Place.{Measured, Measured-same, Placed, Placed-plug}

attach-height :
    (s : Nodes) (par : ℕ) (b : Bool) (x y : ℕ) → (attach s par b x y).height ≡ (s y).height
attach-height s par b x y = elim (Bool-cases (par == 0)) [
  | inl e ↦ rw e
  | inr e ↦ rw e (at b (y == par) refl)
]
  where
    at :
        (b : Bool) (c : Bool)
        → (y == par) ≡ c
        → ((if b then set_left s par x else set_right s par x) y).height ≡ (s y).height
    at true c e = ground arith
    at false c e = ground arith

attach-cnt : (s : Nodes) (par : ℕ) (b : Bool) (x y : ℕ) → (attach s par b x y).cnt ≡ (s y).cnt
attach-cnt s par b x y = elim (Bool-cases (par == 0)) [
  | inl e ↦ rw e
  | inr e ↦ rw e (at b (y == par) refl)
]
  where
    at :
        (b : Bool) (c : Bool)
        → (y == par) ≡ c
        → ((if b then set_left s par x else set_right s par x) y).cnt ≡ (s y).cnt
    at true c e = ground arith
    at false c e = ground arith

-- The writes of `avl_del` to the successor `v` and to the children of `p`.
abbrev pub moved : Nodes → ℕ → ℕ → ℕ → ℕ → Nodes
moved s p v x y = adopt (adopt (write s v (s p)) x v) y v

module _ (rank : ℕ → ℕ) (first last : ℕ) where
  Measured-kept :
      (s s' : Nodes) (t : Tree) (lo hi : ℕ) (c : Way)
      → lo ≤ hi
      → RankedPath rank first last lo hi c
      → Outside rank lo hi s s'
      → Measured s t c
      → Measured s' t c
  Measured-kept s s' t lo hi [] b o a m = tt
  Measured-kept s s' t lo hi (on_left q r ∷ c) b (e, (end, right, o)) a m =
      let step = Ranked-le rank (suc (rank q)) r end right in
      let same = a q (inr (omega arith)) in
      (
        ap (λ n. n.height) same ∙ m.0,
        ap (λ n. n.cnt) same ∙ m.1,
        Measured-kept s s' (node t q r) lo end c (omega arith) o (λ z d. a z (wider z step d)) m.2,
      )
    where
      wider :
          (z : ℕ)
          → suc (rank q) ≤ end
          → (rank z < lo) ⊎ (end ≤ rank z)
          → (rank z < lo) ⊎ (hi ≤ rank z)
      wider z u (inl d) = inl d
      wider z u (inr d) = inr (omega arith)
  Measured-kept s s' t lo hi (on_right l q ∷ c) b (e, (start, left, o)) a m =
      let step = Ranked-le rank start l (rank q) left in
      let same = a q (inl (omega arith)) in
      (
        ap (λ n. n.height) same ∙ m.0,
        ap (λ n. n.cnt) same ∙ m.1,
        Measured-kept s s' (node l q t) start hi c (omega arith) o (λ z d. a z (wider z step d))
            m.2,
      )
    where
      wider :
          (z : ℕ)
          → start ≤ rank q
          → (rank z < start) ⊎ (hi ≤ rank z)
          → (rank z < lo) ⊎ (hi ≤ rank z)
      wider z u (inl d) = inl (omega arith)
      wider z u (inr d) = inr d

  pub moved-Turned :
      (s : Nodes) (par lo : ℕ) (a : Tree) (p : ℕ) (b : Tree) (v hi : ℕ)
      → Ranked rank lo (node a v b) hi
      → v ≢ 0
      → Rep s par (node a p b)
      → Turned rank lo hi s par v (node a v b) (v, moved s p v (ptr a) (ptr b))
  moved-Turned s par lo a p b v hi ranks n h =
      let below = Ranked-le rank lo a (rank v) ranks.0 in
      let above = Ranked-le rank (suc (rank v)) b hi ranks.1 in
      let s2 : Nodes = write s v (s p) in
      let s3 : Nodes = adopt s2 (ptr a) v in
      let own : moved s p v (ptr a) (ptr b) v ≡ s p =
        adopt-out rank s3 (suc (rank v)) b hi v v ranks.1 (inl (omega arith))
        ∙ adopt-out rank s2 lo a (rank v) v v ranks.0 (inr (omega arith))
        ∙ write-same s v (s p) in
      record {
        top = refl;
        rep = (
          record {
            ne_null = n;
            parent = ap (λ m. m.parent) own ∙ h.0.parent;
            left = ap (λ m. m.left) own ∙ h.0.left;
            right = ap (λ m. m.right) own ∙ h.0.right;
          },
          ap (λ m. m.height) own ∙ h.1,
          ap (λ m. m.cnt) own ∙ h.2,
          Rep-kept rank s3 _ v lo a (rank v) ranks.0
              (λ z i j. adopt-out rank s3 (suc (rank v)) b hi v z ranks.1 (inl (omega arith)))
              (Rep-adopt rank s2 p lo a (rank v) v ranks.0 (
                Rep-kept rank s s2 p lo a (rank v) ranks.0
                  (λ z i j. write-other s v (s p) z (rank_apart rank z v (inl j))) h.3)),
          Rep-adopt rank s3 p (suc (rank v)) b hi v ranks.1 (
              Rep-kept rank s s3 p (suc (rank v)) b hi ranks.1
                (λ z i j.
                  adopt-out rank s2 lo a (rank v) v z ranks.0 (inr (omega arith))
                  ∙ write-other s v (s p) z (rank_apart rank z v (inr i)))
                h.4),
        );
        outside = λ z d. far z below above d;
      }
    where
      far :
          (z : ℕ)
          → lo ≤ rank v
          → suc (rank v) ≤ hi
          → (rank z < lo) ⊎ (hi ≤ rank z)
          → moved s p v (ptr a) (ptr b) z ≡ s z
      far z u w (inl d) =
          adopt-out rank _ (suc (rank v)) b hi v z ranks.1 (inl (omega arith))
          ∙ adopt-out rank _ lo a (rank v) v z ranks.0 (inl d)
          ∙ write-other s v (s p) z (rank_apart rank z v (inl (omega arith)))
      far z u w (inr d) =
          adopt-out rank _ (suc (rank v)) b hi v z ranks.1 (inr d)
          ∙ adopt-out rank _ lo a (rank v) v z ranks.0 (inr (omega arith))
          ∙ write-other s v (s p) z (rank_apart rank z v (inr (omega arith)))

  -- After them and the write to the link of the parent, the store holds the tree with `v` in place of `p`.
  pub swap-Turned :
      (s : Nodes) (lo : ℕ) (a : Tree) (p : ℕ) (b : Tree) (v hi : ℕ) (c : Way) (root : ℕ)
      → Ranked rank lo (node a v b) hi
      → RankedPath rank first last lo hi c
      → v ≢ 0
      → Placed s (node a p b) c
      → root ≡ ptr (plug (node a v b) c)
      → Turned rank first last s 0
          (ptr (plug (node a v b) c))
          (plug (node a v b) c)
          (root, attach (moved s p v (ptr a) (ptr b)) (path_ptr c) (side c) v)
  swap-Turned s lo a p b v hi c root ranks o n h e =
      let s4 : Nodes = moved s p v (ptr a) (ptr b) in
      let s5 : Nodes = attach s4 (path_ptr c) (side c) v in
      let w = moved-Turned s (path_ptr c) lo a p b v hi ranks n h.inner in
      let hung = attach-Hung rank first last s p lo hi c (node a v b) v s4 ranks o h.outer w in
      let within = Ranked-le rank lo (node a v b) hi ranks in
      let kept = Measured-kept s s4 (node a p b) lo hi c within o w.outside h.measured in
      record {
        top = e;
        rep = Placed-plug s5 (node a v b) c record {
          inner = hung.rep;
          outer = hung.around;
          measured =
              Measured-same s4 s5 (node a p b) (node a v b) c
                (attach-height s4 (path_ptr c) (side c) v) (attach-cnt s4 (path_ptr c) (side c) v)
                refl refl kept;
        };
        outside = hung.outside;
      }
