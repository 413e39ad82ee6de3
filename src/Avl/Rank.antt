-- ===== src/Avl/Rank.antt =====
-- The ranks of the addresses of a tree are their places from left to right.
use greenis.Prelude.{
  ℕ, suc, ◌≤◌, ◌≡◌, ◌≢◌, refl, ap, List, [], ◌∷◌, ◌++◌, arith, false, All, Apart, Distinct, ==_refl,
  ◌==◌, if◌then◌else◌, length,
}
use greenis.Avl.Tree.{Tree, leaf, node, in_order}
use greenis.Avl.Store.{Ranked}

-- The place of the first `x`, or the length.
abbrev pub index_of : List ℕ → ℕ → ℕ
index_of [] x = 0
index_of (y ∷ l) x = if x == y then 0 else suc (index_of l x)

-- The ranks of the list count from `lo` to before `hi`.
abbrev Consecutive : (ℕ → ℕ) → ℕ → List ℕ → ℕ → Type 0
Consecutive rank lo [] hi = lo ≤ hi
Consecutive rank lo (x ∷ l) hi = (rank x ≡ lo) × Consecutive rank (suc lo) l hi

Consecutive-suc :
    (f g : ℕ → ℕ) (lo : ℕ) (l : List ℕ) (hi : ℕ)
    → Consecutive f lo l hi
    → All (λ x. g x ≡ suc (f x)) l
    → Consecutive g (suc lo) l (suc hi)
Consecutive-suc f g lo [] hi h e = omega arith
Consecutive-suc f g lo (x ∷ l) hi h e =
    (omega (arith, h.0, e.0), Consecutive-suc f g (suc lo) l hi h.1 e.1)

index_of-suc :
    (y : ℕ) (l m : List ℕ) → Apart y m → All (λ x. index_of (y ∷ l) x ≡ suc (index_of l x)) m
index_of-suc y l [] h = tt
index_of-suc y l (x ∷ m) h = (rw (other h.0), index_of-suc y l m h.1)
  where
    other : x ≢ y → (x == y) ≡ false
    other d = ground arith

index_of-Consecutive : (l : List ℕ) → Distinct l → Consecutive (index_of l) 0 l (length l)
index_of-Consecutive [] h = omega arith
index_of-Consecutive (y ∷ l) h = (
  rw (==_refl y),
  Consecutive-suc (index_of l) (index_of (y ∷ l)) 0 l (length l) (index_of-Consecutive l h.1)
      (index_of-suc y l l h.0),
)

Consecutive-Ranked :
    (rank : ℕ → ℕ) (lo : ℕ) (t : Tree) (hi : ℕ)
    → Consecutive rank lo (in_order t) hi
    → Ranked rank lo t hi
Consecutive-Ranked rank lo leaf hi h = h
Consecutive-Ranked rank lo (node l p r) hi h =
    let (left, right) = Consecutive-split lo (in_order l) h in
    (Consecutive-Ranked rank lo l (rank p) left, Consecutive-Ranked rank (suc (rank p)) r hi right)
  where
    Consecutive-split :
        (lo : ℕ) (xs : List ℕ)
        → Consecutive rank lo (xs ++ p ∷ in_order r) hi
        → Consecutive rank lo xs (rank p) × Consecutive rank (suc (rank p)) (in_order r) hi
    Consecutive-split lo [] h = (omega (arith, h.0), rw h.0 h.1)
    Consecutive-split lo (x ∷ xs) h =
        let rest = Consecutive-split (suc lo) xs h.1 in ((h.0, rest.0), rest.1)

-- A tree of distinct addresses.
pub in_order-Ranked :
    (t : Tree) → Distinct (in_order t) → Ranked (index_of (in_order t)) 0 t (length (in_order t))
in_order-Ranked t h = Consecutive-Ranked _ 0 t _ (index_of-Consecutive (in_order t) h)

-- An address beyond the list.
pub index_of-Apart : (l : List ℕ) (x : ℕ) → Apart x l → index_of l x ≡ length l
index_of-Apart [] x h = refl
index_of-Apart (y ∷ l) x h = rw (other h.0) (ap suc (index_of-Apart l x h.1))
  where
    other : y ≢ x → (x == y) ≡ false
    other d = ground arith
