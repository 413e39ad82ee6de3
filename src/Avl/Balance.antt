-- ===== src/Avl/Balance.antt =====
-- A repair restores the balance of a tree whose subtrees differ by two in height.
use Prim.Native.Nat.{max}
use greenis.Prelude.{ℕ, ◌+◌, ◌≤◌, ◌≡◌, ◌⊎◌, inl, inr, [], ◌∷◌, arith, ◌==◌, Bool-cases}
use greenis.Avl.Tree.{Tree, leaf, node, height, lower_left, lower_right, rebalance}
use greenis.Avl.Repair.{climbed, fix_up-climbed}
use greenis.Avl.Way.{on_left, on_right, Way, plug}

-- The subtrees of every node differ by one in height at most.
abbrev pub IsAvl : Tree → Type 0
IsAvl leaf = Unit
IsAvl (node l p r) = IsAvl l × IsAvl r × (height l ≤ height r + 1) × (height r ≤ height l + 1)

-- What a repair makes of a tree of height `h`.
pub record Lowered (h : ℕ) (t : Tree) : Type 0 where
  pub balanced : IsAvl t
  pub lower : (height t ≡ h) ⊎ (height t + 1 ≡ h)

lower_left-Lowered :
    (l : Tree) (p : ℕ) (r : Tree)
    → IsAvl l
    → IsAvl r
    → height l ≡ height r + 2
    → Lowered (height l + 1) (lower_left (node l p r))
lower_left-Lowered leaf p r u v e = absurd (omega arith)
lower_left-Lowered (node a q leaf) p r u v e = record {
  balanced = ground arith;
  lower = ground arith;
}
lower_left-Lowered (node a q (node b x c)) p r u v e = record {
  balanced = ground arith;
  lower = ground arith;
}

lower_right-Lowered :
    (l : Tree) (p : ℕ) (r : Tree)
    → IsAvl l
    → IsAvl r
    → height l + 2 ≡ height r
    → Lowered (height r + 1) (lower_right (node l p r))
lower_right-Lowered l p leaf u v e = absurd (omega arith)
lower_right-Lowered l p (node leaf q b) u v e = record {
  balanced = ground arith;
  lower = ground arith;
}
lower_right-Lowered l p (node (node a x c) q b) u v e = record {
  balanced = ground arith;
  lower = ground arith;
}

-- Two heights differ by one at most.
abbrev pub Close : ℕ → ℕ → Type 0
Close h k = (h ≤ k + 1) × (k ≤ h + 1)

-- A balanced tree in place of a subtree of height `h`.
pub record Replaced (h : ℕ) (t : Tree) : Type 0 where
  pub balanced : IsAvl t
  pub near : Close (height t) h

-- The surroundings are balanced around a subtree of height `h`.
abbrev pub BalancedPath : ℕ → Way → Type 0
BalancedPath h [] = Unit
BalancedPath h (on_left p r ∷ c) =
    IsAvl r × Close h (height r) × BalancedPath (1 + max h (height r)) c
BalancedPath h (on_right l p ∷ c) =
    IsAvl l × Close (height l) h × BalancedPath (1 + max (height l) h) c

pub plug-BalancedPath :
    (t : Tree) (c : Way) → IsAvl (plug t c) → IsAvl t × BalancedPath (height t) c
plug-BalancedPath t [] h = (h, tt)
plug-BalancedPath t (on_left p r ∷ c) h =
    let (own, rest) = plug-BalancedPath (node t p r) c h in (own.0, (own.1, (own.2, own.3), rest))
plug-BalancedPath t (on_right l p ∷ c) h =
    let (own, rest) = plug-BalancedPath (node l p t) c h in (own.1, (own.0, (own.2, own.3), rest))

-- One repair above a replaced left subtree.
left-Replaced :
    (h : ℕ) (t : Tree) (p : ℕ) (r : Tree)
    → Replaced h t
    → IsAvl r
    → Close h (height r)
    → Replaced (1 + max h (height r)) (rebalance (node t p r))
unfolding rebalance
left-Replaced h t p r w b near = elim (Bool-cases (height t == height r + 2)) [
  | inl e ↦ rw e (
      let low = lower_left-Lowered t p r w.balanced b (ground arith) in
      record { balanced = low.balanced; near = ground (arith, low.lower, w.near, near) })
  | inr e ↦ elim (Bool-cases (height t + 2 == height r)) [
    | inl f ↦
        rw (e, f)
          (let low = lower_right-Lowered t p r w.balanced b (ground arith) in
            record { balanced = low.balanced; near = ground (arith, low.lower, w.near, near) })
    | inr f ↦
        rw (e, f)
          record {
            balanced = (w.balanced, b, ground (arith, w.near, near), ground (arith, w.near, near));
            near = ground (arith, w.near, near);
          }
  ]
]

-- One repair above a replaced right subtree.
right-Replaced :
    (h : ℕ) (l : Tree) (p : ℕ) (t : Tree)
    → Replaced h t
    → IsAvl l
    → Close (height l) h
    → Replaced (1 + max (height l) h) (rebalance (node l p t))
unfolding rebalance
right-Replaced h l p t w b near = elim (Bool-cases (height l == height t + 2)) [
  | inl e ↦ rw e (
      let low = lower_left-Lowered l p t b w.balanced (ground arith) in
      record { balanced = low.balanced; near = ground (arith, low.lower, w.near, near) })
  | inr e ↦ elim (Bool-cases (height l + 2 == height t)) [
    | inl f ↦
        rw (e, f)
          (let low = lower_right-Lowered l p t b w.balanced (ground arith) in
            record { balanced = low.balanced; near = ground (arith, low.lower, w.near, near) })
    | inr f ↦
        rw (e, f)
          record {
            balanced = (b, w.balanced, ground (arith, w.near, near), ground (arith, w.near, near));
            near = ground (arith, w.near, near);
          }
  ]
]

-- The repairs from a replaced subtree up to the root balance the whole tree.
pub climbed-IsAvl :
    (h : ℕ) (t : Tree) (c : Way) → Replaced h t → BalancedPath h c → IsAvl (climbed t c)
climbed-IsAvl h t [] w b = w.balanced
climbed-IsAvl h t (on_left p r ∷ c) w b = rw (fix_up-climbed (node t p r) c) (
    climbed-IsAvl (1 + max h (height r)) (rebalance (node t p r)) c
      (left-Replaced h t p r w b.0 b.1) b.2)
climbed-IsAvl h t (on_right l p ∷ c) w b = rw (fix_up-climbed (node l p t) c) (
    climbed-IsAvl (1 + max (height l) h) (rebalance (node l p t)) c
      (right-Replaced h l p t w b.0 b.1) b.2)

pub BalancedPath-plug :
    (t : Tree) (c : Way) → IsAvl t → BalancedPath (height t) c → IsAvl (plug t c)
BalancedPath-plug t [] h b = h
BalancedPath-plug t (on_left p r ∷ c) h b =
    BalancedPath-plug (node t p r) c (h, b.0, b.1.0, b.1.1) b.2
BalancedPath-plug t (on_right l p ∷ c) h b =
    BalancedPath-plug (node l p t) c (b.0, h, b.1.0, b.1.1) b.2
