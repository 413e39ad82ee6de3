-- ===== src/Zset.antt =====
-- The sorted set of lib/server/zset.cpp and inc/server/zset.h: a tree by score and name, and a hash table by
-- name, over the same nodes. A `ZNode *` is a number, which is also the pointer to its part in the tree; the nodes
-- of a set stand in the set, and a freed node is not in it. A double is its 64 bits; what `!=` and `<` say of two
-- doubles is a parameter. A loop gets two rounds more than the set has members.
pub mod Search
pub mod Insert
pub mod Seek
pub mod Update
pub mod Clear
pub mod Lookup
pub mod Delete
use greenis.Prelude.{
  ℕ, zero, suc, ◌+◌, ◌%◌, ◌^◌, Bool, true, false, not, List, [], ◌∷◌, Option, none, some, Run, ok,
  out_of_fuel, ◌>>=◌, ◌>>◌, assert, require, ltb, ◌==◌, if◌then◌else◌, length, bytes_eq,
}
use greenis.Prelude.Int.{ℤ, pos, negsuc, is_negative}
use greenis.Bytes.{Bytes}
use greenis.HashTable.{
  HNode, HMap, str_hash, empty_map, hm_lookup, hm_insert, hm_delete, hm_clear, hm_size,
}
use greenis.Avl.Offset.{avl_offset}
use greenis.Avl.{Nodes, null, deref, set_parent, attach, avl_init, avl_fix, avl_del}

pub record ZNode : Type 0 where
  pub score : ℕ
  pub name : Bytes

abbrev pub Members : Type 0
Members = ℕ → Option ZNode

pub record ZSet : Type 0 where
  pub root : ℕ
  pub hmap : HMap ℕ
  pub nodes : Nodes
  pub members : Members
  pub fresh : ℕ

abbrev pub set_member : Members → ℕ → Option ZNode → Members
set_member ms p v q = if q == p then v else ms q

-- `memcmp` on the bytes that both have: negative, zero or positive.
abbrev pub memcmp : Bytes → Bytes → ℤ
memcmp [] ys = pos 0
memcmp (x ∷ xs) [] = pos 0
memcmp (x ∷ xs) (y ∷ ys) = if ltb x y then negsuc 0 else if ltb y x then pos 1 else memcmp xs ys

abbrev pub is_zero : ℤ → Bool
is_zero (pos n) = n == 0
is_zero (negsuc n) = false

-- Two rounds more than members.
abbrev pub rounds : ZSet → ℕ
rounds zset = hm_size zset.hmap + 2

-- `while (*from)`: where a new node goes. `below` is the node that was passed last and the side of it.
unfoldable pub search : ℕ → (ℕ → Run Bool) → Nodes → ℕ → ℕ × Bool → Run (ℕ × Bool)
search zero less s node below = out_of_fuel
search (suc fuel) less s node below = elim (node == null) [
  | true ↦ ok below
  | false ↦ do
    n ← deref s node
    first ← less node
    search fuel less s (if first then n.left else n.right) (node, first)
]

-- `tree_insert` on the root and the nodes of the set.
unfoldable pub insert_below : ℕ → (ℕ → Run Bool) → Nodes → ℕ → ℕ → Run (ℕ × Nodes)
insert_below fuel less s root p = do
  (parent, on_left) ← search fuel less s root (null, true)
  avl_fix fuel (set_parent (attach s parent on_left p) p parent) p

-- The loop of `zset_seekge`.
unfoldable pub seek : ℕ → (ℕ → Run Bool) → Nodes → ℕ → ℕ → Run ℕ
seek zero less s node found = out_of_fuel
seek (suc fuel) less s node found = elim (node == null) [
  | true ↦ ok found
  | false ↦ do
    n ← deref s node
    small ← less node
    seek fuel less s (if small then n.right else n.left) (if small then found else node)
]

-- `free`, for each node of the tree.
unfoldable pub tree_dispose : ℕ → Nodes → Members → ℕ → Run Members
tree_dispose zero s ms node = out_of_fuel
tree_dispose (suc fuel) s ms node = elim (node == null) [
  | true ↦ ok ms
  | false ↦ do
    n ← deref s node
    ms1 ← tree_dispose fuel s ms n.left
    ms2 ← tree_dispose fuel s ms1 n.right
    ok (set_member ms2 node none)
]

abbrev pub hkey : Bytes → HNode Bytes
hkey name = record { hcode = str_hash name; owner = name }

-- A freed node is in no table, so that its name is not read.
unfoldable pub hcmp : Members → HNode ℕ → HNode Bytes → Bool
hcmp ms node key = elim (ms node.owner) [ none ↦ false | some z ↦ bytes_eq z.name key.owner ]

unfoldable pub zset_lookup : ZSet → Bytes → Run (Option ℕ × ZSet)
zset_lookup zset name = elim (zset.root == null) [
  | true ↦ ok (none, zset)
  | false ↦ do
    (found, hmap) ← hm_lookup zset.hmap (hkey name) (hcmp zset.members)
    ok (elim found [ none ↦ none | some n ↦ some n.owner ], record zset { hmap = hmap })
]

unfoldable pub znode_new : ZSet → Bytes → ℕ → ℕ × ZSet
znode_new zset name score = (
  zset.fresh,
  record zset {
    nodes = avl_init zset.nodes zset.fresh;
    members = set_member zset.members zset.fresh (some (record { score = score; name = name }));
    fresh = suc zset.fresh;
  },
)

-- The key has the hash code of the node, which `znode_new` computed from its name.
unfoldable pub zset_delete : ZSet → ℕ → Run ZSet
zset_delete zset node = do
  z ← require (zset.members node)
  (found, hmap) ← hm_delete zset.hmap (hkey z.name) (hcmp zset.members)
  assert (elim found [ none ↦ false | some n ↦ true ])
  (root, nodes) ← avl_del (rounds zset) zset.nodes node
  ok (record zset {
    root = root;
    hmap = hmap;
    nodes = nodes;
    members = set_member zset.members node none;
  })

-- The walk goes up and then down.
unfoldable pub znode_offset : ZSet → ℕ → ℤ → Run ℕ
znode_offset zset node offset =
    if node == null then ok null else avl_offset (rounds zset + rounds zset) zset.nodes node offset

unfoldable pub zset_clear : ZSet → Run ZSet
zset_clear zset = do
  members ← tree_dispose (rounds zset) zset.nodes zset.members zset.root
  ok (record zset { hmap = hm_clear zset.hmap; members = members; root = null })

module _ (ne lt : ℕ → ℕ → Bool) where
  -- `zless` of a node and a score with a name
  unfoldable pub zless_key : Members → ℕ → ℕ → Bytes → Run Bool
  zless_key ms lhs score name = do
    zl ← require (ms lhs)
    let rv = memcmp zl.name name
    ok (
        if ne zl.score score
        then lt zl.score score
        else if not (is_zero rv)
        then is_negative rv
        else ltb (length zl.name) (length name))

  unfoldable pub zless : Members → ℕ → ℕ → Run Bool
  zless ms lhs rhs = do zr ← require (ms rhs); zless_key ms lhs zr.score zr.name

  unfoldable pub tree_insert : ZSet → ℕ → Run ZSet
  tree_insert zset node = do
    (root, nodes) ← insert_below (rounds zset) (zless zset.members node) zset.nodes zset.root node
    ok (record zset { root = root; nodes = nodes })

  unfoldable pub zset_update : ZSet → ℕ → ℕ → Run ZSet
  zset_update zset node score = do
    z ← require (zset.members node)
    elim (ne z.score score) [
      | false ↦ ok zset
      | true ↦ do
        (root, nodes) ← avl_del (rounds zset) zset.nodes node
        tree_insert
            (record zset {
              root = root;
              nodes = avl_init nodes node;
              members = set_member zset.members node (some (record z { score = score }));
            })
            node
    ]

  unfoldable pub zset_insert : ZSet → Bytes → ℕ → Run (Bool × ZSet)
  zset_insert zset name score = do
    (found, looked) ← zset_lookup zset name
    elim found [
      | some node ↦ do updated ← zset_update looked node score; ok (false, updated)
      | none ↦ do
        let (node, made) = znode_new looked name score
        hmap ← hm_insert made.hmap (record { hcode = str_hash name; owner = node })
        inserted ← tree_insert (record made { hmap = hmap }) node
        ok (true, inserted)
    ]

  unfoldable pub zset_seekge : ZSet → ℕ → Bytes → Run ℕ
  zset_seekge zset score name =
      seek (rounds zset) (λ node. zless_key zset.members node score name) zset.nodes zset.root null
