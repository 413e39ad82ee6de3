-- ===== src/Avl.antt =====
-- The tree of lib/server/avl.cpp and inc/server/avl.h. A pointer is a number, NULL is 0, and the nodes
-- stand in a store. A read through NULL is a fault; a write goes through a pointer that was read
-- before. A loop gets a bound on its rounds from its caller. `uint32_t` wraps around.
pub mod Tree
pub mod Offset
pub mod Store
pub mod RotateLeft
pub mod RotateRight
pub mod FixLeft
pub mod FixRight
pub mod Repair
pub mod Way
pub mod Attach
pub mod Fix
pub mod Balance
pub mod Rank
pub mod Place
pub mod Remove
pub mod Locate
pub mod Swap
pub mod Finish
pub mod Held
pub mod Easy
pub mod Exchange
pub mod Delete
use Prim.Native.Nat.{max}
use greenis.Prelude.{
  ℕ, zero, suc, ◌+◌, ◌%◌, ◌^◌, Bool, true, false, not, ◌||◌, Run, ok, fault, out_of_fuel, ◌>>=◌,
  ◌>>◌, assert, ltb, ◌==◌, if◌then◌else◌,
}

pub record AvlNode : Type 0 where
  pub parent : ℕ
  pub left : ℕ
  pub right : ℕ
  pub height : ℕ
  pub cnt : ℕ

abbrev pub Nodes : Type 0
Nodes = ℕ → AvlNode

abbrev pub null : ℕ
null = 0

-- `*p`
unfoldable pub deref : Nodes → ℕ → Run AvlNode
deref s p = if p == null then fault else ok (s p)

abbrev pub write : Nodes → ℕ → AvlNode → Nodes
write s p n q = if q == p then n else s q

abbrev pub set_parent : Nodes → ℕ → ℕ → Nodes
set_parent s p v = write s p (record (s p) { parent = v })

abbrev pub set_left : Nodes → ℕ → ℕ → Nodes
set_left s p v = write s p (record (s p) { left = v })

abbrev pub set_right : Nodes → ℕ → ℕ → Nodes
set_right s p v = write s p (record (s p) { right = v })

unfoldable pub avl_init : Nodes → ℕ → Nodes
avl_init s p = write s p (record { parent = null; left = null; right = null; height = 1; cnt = 1 })

abbrev pub avl_height : Nodes → ℕ → ℕ
avl_height s p = if p == null then 0 else (s p).height

abbrev pub avl_cnt : Nodes → ℕ → ℕ
avl_cnt s p = if p == null then 0 else (s p).cnt

unfoldable pub avl_update : Nodes → ℕ → Run Nodes
avl_update s node = deref s node >>= λ n. ok (
    write s node (record n {
      height = (1 + max (avl_height s n.left) (avl_height s n.right)) % 2 ^ 32;
      cnt = (1 + avl_cnt s n.left + avl_cnt s n.right) % 2 ^ 32;
    }))

-- `if (p) p->parent = v;`
abbrev pub adopt : Nodes → ℕ → ℕ → Nodes
adopt s p v = if p == null then s else set_parent s p v

-- The writes of `rot_left` to the links.
unfoldable pub link_left : Nodes → ℕ → ℕ → ℕ → ℕ → Nodes
link_left s node parent new_node inner =
    let s1 : Nodes = set_right s node inner in
    let s2 : Nodes = adopt s1 inner node in
    let s3 : Nodes = set_parent s2 new_node parent in
    let s4 : Nodes = set_left s3 new_node node in set_parent s4 node new_node

unfoldable pub rot_left : Nodes → ℕ → Run (ℕ × Nodes)
rot_left s node = do
  n ← deref s node
  let new_node = n.right
  m ← deref s new_node
  s1 ← avl_update (link_left s node n.parent new_node m.left) node
  s2 ← avl_update s1 new_node
  ok (new_node, s2)

-- The writes of `rot_right` to the links.
unfoldable pub link_right : Nodes → ℕ → ℕ → ℕ → ℕ → Nodes
link_right s node parent new_node inner =
    let s1 : Nodes = set_left s node inner in
    let s2 : Nodes = adopt s1 inner node in
    let s3 : Nodes = set_parent s2 new_node parent in
    let s4 : Nodes = set_right s3 new_node node in set_parent s4 node new_node

unfoldable pub rot_right : Nodes → ℕ → Run (ℕ × Nodes)
rot_right s node = do
  n ← deref s node
  let new_node = n.left
  m ← deref s new_node
  s1 ← avl_update (link_right s node n.parent new_node m.right) node
  s2 ← avl_update s1 new_node
  ok (new_node, s2)

unfoldable pub avl_fix_left : Nodes → ℕ → Run (ℕ × Nodes)
avl_fix_left s node = do
  n ← deref s node
  l ← deref s n.left
  s' ←
      if ltb (avl_height s l.left) (avl_height s l.right)
      then (rot_left s n.left >>= λ (x, t). ok (set_left t node x))
      else ok s
  rot_right s' node

unfoldable pub avl_fix_right : Nodes → ℕ → Run (ℕ × Nodes)
avl_fix_right s node = do
  n ← deref s node
  r ← deref s n.right
  s' ←
      if ltb (avl_height s r.right) (avl_height s r.left)
      then (rot_right s n.right >>= λ (x, t). ok (set_right t node x))
      else ok s
  rot_left s' node

-- `*from = x`, where `from` is the link of `parent` or, without a parent, the local variable.
abbrev pub attach : Nodes → ℕ → Bool → ℕ → Nodes
attach s parent on_left x =
    if parent == null then s else if on_left then set_left s parent x else set_right s parent x

-- `parent->left == node`
unfoldable pub is_left : Nodes → ℕ → ℕ → Run Bool
is_left s parent node =
    if parent == null then ok true else deref s parent >>= λ q. ok (q.left == node)

-- The middle of the loop of `avl_fix`: the subtree that is put in the place of `node`.
unfoldable pub fix_height : Nodes → ℕ → ℕ → Bool → Run (ℕ × Nodes)
fix_height s node parent on_left = do
  n ← deref s node
  let l = avl_height s n.left
  let r = avl_height s n.right
  if l == (r + 2) % 2 ^ 32
      then (avl_fix_left s node >>= λ (x, t). ok (x, attach t parent on_left x))
      else if (l + 2) % 2 ^ 32 == r
      then (avl_fix_right s node >>= λ (x, t). ok (x, attach t parent on_left x))
      else ok (node, s)

unfoldable pub avl_fix : ℕ → Nodes → ℕ → Run (ℕ × Nodes)
avl_fix zero s node = out_of_fuel
avl_fix (suc fuel) s node = do
  n ← deref s node
  on_left ← is_left s n.parent node
  s1 ← avl_update s node
  (sub, s2) ← fix_height s1 node n.parent on_left
  elim (n.parent == null) [ true ↦ ok (sub, s2) | false ↦ avl_fix fuel s2 n.parent ]

unfoldable pub avl_del_easy : ℕ → Nodes → ℕ → Run (ℕ × Nodes)
avl_del_easy fuel s node = do
  n ← deref s node
  assert ((n.left == null) || (n.right == null))
  let child = if n.left == null then n.right else n.left
  let s1 = adopt s child n.parent
  on_left ← is_left s1 n.parent node
  elim (n.parent == null) [
    | true ↦ ok (child, s1)
    | false ↦ avl_fix fuel (attach s1 n.parent on_left child) n.parent
  ]

-- `while (victim->left) victim = victim->left;`
unfoldable pub leftmost : ℕ → Nodes → ℕ → Run ℕ
leftmost zero s victim = out_of_fuel
leftmost (suc fuel) s victim = deref s victim >>= λ v. elim (v.left == null) [
  | true ↦ ok victim
  | false ↦ leftmost fuel s v.left
]

unfoldable pub avl_del : ℕ → Nodes → ℕ → Run (ℕ × Nodes)
avl_del fuel s node = deref s node >>= λ n. elim ((n.left == null) || (n.right == null)) [
  | true ↦ avl_del_easy fuel s node
  | false ↦ do
    victim ← leftmost fuel s n.right
    (root, s1) ← avl_del_easy fuel s victim
    m ← deref s1 node
    let s2 : Nodes = write s1 victim m
    let s3 : Nodes = adopt s2 m.left victim
    let s4 : Nodes = adopt s3 m.right victim
    on_left ← is_left s4 m.parent node
    ok (if m.parent == null then victim else root, attach s4 m.parent on_left victim)
]
