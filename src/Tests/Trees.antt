-- ===== src/Tests/Trees.antt =====
-- Runs of the tree on a small store.
use greenis.HashTable.{hm_size}
use greenis.Zset.Clear.{Cleared, zset_clear-Cleared}
use greenis.Prelude.Int.{pos, negsuc}
use greenis.Avl.Offset.{avl_offset, offset_loop, offset_round}
use greenis.Zset.{znode_offset, zset_clear, ZNode, ZSet, zless, zless_key, zset_update, zset_seekge}
use greenis.Zset.Update.{IsOrder, zset_update-moves, zset_seekge-first}
use greenis.Prelude.{
  ◌*◌, Bool, not, Option, some, none, ok, ltb, ℕ, ◌≡◌, refl, [], ◌∷◌, arith, Returns, ◌==◌,
  if◌then◌else◌,
}
use greenis.Avl.{deref, Nodes, avl_fix, avl_del}
use greenis.Avl.Tree.{leaf, node}
use greenis.Avl.Way.{on_right}
use greenis.Avl.Held.{IsHeld, Becomes, avl_fix-Becomes}
use greenis.Avl.Delete.{avl_del-Becomes}

-- 1 and 3 below 2.
abbrev trio : Nodes
trio x =
    if x == 2
    then record { parent = 0; left = 1; right = 3; height = 2; cnt = 3 }
    else record { parent = 2; left = 0; right = 0; height = 1; cnt = 1 }

trio-IsHeld : IsHeld trio 2 (1 ∷ 2 ∷ 3 ∷ [])
trio-IsHeld = record {
  tree = node (node leaf 1 leaf) 2 (node leaf 3 leaf);
  top = refl;
  rep = (
    record { ne_null = omega arith; parent = refl; left = refl; right = refl },
    refl,
    refl,
    (
      record { ne_null = omega arith; parent = refl; left = refl; right = refl },
      refl,
      refl,
      tt,
      tt,
    ),
    (
      record { ne_null = omega arith; parent = refl; left = refl; right = refl },
      refl,
      refl,
      tt,
      tt,
    ),
  );
  balanced = (
    (tt, tt, omega arith, omega arith),
    (tt, tt, omega arith, omega arith),
    omega arith,
    omega arith,
  );
  order = refl;
}

avl_del-Becomes_example : Returns (Becomes trio (1 ∷ 2 ∷ 3 ∷ []) (1 ∷ 3 ∷ [])) (avl_del 3 trio 2)
avl_del-Becomes_example =
    avl_del-Becomes 3 trio 2 (1 ∷ []) 2 (3 ∷ []) trio-IsHeld
      ((ground arith, (ground arith, tt)), ((ground arith, tt), (tt, tt))) (omega arith)
      (omega arith)

-- 3 is a new leaf below 2, which is below 1: the counts above it are those from before.
abbrev chain : Nodes
chain x =
    if x == 1
    then record { parent = 0; left = 0; right = 2; height = 2; cnt = 2 }
    else if x == 2
    then record { parent = 1; left = 0; right = 3; height = 1; cnt = 1 }
    else record { parent = 2; left = 0; right = 0; height = 1; cnt = 1 }

avl_fix-Becomes_example :
    Returns (Becomes chain (1 ∷ 2 ∷ 3 ∷ []) (1 ∷ 2 ∷ 3 ∷ [])) (avl_fix 3 chain 3)
avl_fix-Becomes_example =
    avl_fix-Becomes 3 chain 3 (on_right leaf 2 ∷ on_right leaf 1 ∷ [])
      (record { ne_null = omega arith; parent = refl; left = refl; right = refl })
      (
        record { ne_null = omega arith; parent = refl; left = refl; right = refl },
        tt,
        (record { ne_null = omega arith; parent = refl; left = refl; right = refl }, tt, tt),
      )
      (tt, (tt, tt, omega arith, omega arith), omega arith, omega arith)
      ((ground arith, (ground arith, tt)), ((ground arith, tt), (tt, tt))) (omega arith)
      (omega arith)

-- Doubles as numbers, for the tests.
abbrev differ : ℕ → ℕ → Bool
differ x y = not (x == y)

abbrev member : ℕ → Option ZNode
member p = some (record { score = 10 * p; name = p ∷ [] })

-- The members 1, 2 and 3 of the tree above have the scores 10, 20 and 30.
abbrev ranks : ZSet
ranks = record {
  root = 2;
  hmap = record {
    newer = record { tab = none; mask = 0; size = 3 };
    older = record { tab = none; mask = 0; size = 0 };
    migrate_pos = 0;
  };
  nodes = trio;
  members = member;
  fresh = 4;
}

-- 1 gets the score 25.
zset_update-moves_example :
    Returns (λ made. IsOrder made (2 ∷ 1 ∷ 3 ∷ [])) (zset_update differ ltb ranks 1 25)
unfolding zless zless_key hm_size
zset_update-moves_example =
    zset_update-moves differ ltb ranks 1 25 (record { score = 10; name = 1 ∷ [] }) [] (2 ∷ 3 ∷ [])
      (2 ∷ []) (3 ∷ []) refl refl trio-IsHeld
      ((ground arith, (ground arith, tt)), ((ground arith, tt), (tt, tt))) refl (refl, tt)
      (refl, tt) (omega arith) (omega arith) (omega arith)

zset_seekge-first_example : zset_seekge differ ltb ranks 15 [] ≡ ok 2
unfolding zless_key hm_size
zset_seekge-first_example =
    zset_seekge-first differ ltb ranks 15 [] (1 ∷ []) (2 ∷ 3 ∷ []) trio-IsHeld (refl, tt)
      (refl, (refl, tt)) (omega arith)

zset_clear-Cleared_example : Returns (Cleared ranks (1 ∷ 2 ∷ 3 ∷ [])) (zset_clear ranks)
unfolding hm_size
zset_clear-Cleared_example = zset_clear-Cleared ranks (1 ∷ 2 ∷ 3 ∷ []) trio-IsHeld (omega arith)

after_one : znode_offset ranks 1 (pos 1) ≡ ok 2
unfolding znode_offset avl_offset offset_loop offset_round deref hm_size
after_one = refl

two_before_three : znode_offset ranks 3 (negsuc 1) ≡ ok 1
unfolding znode_offset avl_offset offset_loop offset_round deref hm_size
two_before_three = refl

beyond_three : znode_offset ranks 3 (pos 1) ≡ ok 0
unfolding znode_offset avl_offset offset_loop offset_round deref hm_size
beyond_three = refl
