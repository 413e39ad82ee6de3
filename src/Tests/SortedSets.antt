-- ===== src/Tests/SortedSets.antt =====
-- The commands on sorted sets, run on a database with the string "v" under "k".
use greenis.Prelude.{
  ℕ, ◌≡◌, refl, Bool, not, ◌==◌, ltb, [], ◌∷◌, List, Option, none, some, Run, ok, ◌>>=◌, bytes_eq,
}
use greenis.Prelude.Int.{ℤ, pos}
use greenis.Bytes.{Bytes, le_bytes}
use greenis.Buffer.{Buffer, buf_append, out_dbl, out_int, out_begin_arr, out_end_arr, out_str}
use greenis.HashTable.{
  str_hash, hash_from, hm_lookup, hm_insert, hm_size, find_in, h_init, h_insert, h_lookup,
  help_loop, hm_help_rehashing, hm_trigger_rehashing, node_at,
}
use greenis.Avl.{
  avl_fix, deref, is_left, avl_update, fix_height, avl_init, avl_fix_left, avl_fix_right,
}
use greenis.Avl.Offset.{avl_offset, offset_loop, offset_round}
use greenis.Response.{literal}
use greenis.Zset.{
  ZSet, zset_insert, zset_lookup, znode_new, tree_insert, insert_below, search, hcmp, zless,
  zless_key, zset_seekge, seek, znode_offset,
}
use greenis.KeyValue.{Store, entry_eq, entry_new, find_entry}
use greenis.KeyValue.SetCommands.{
  do_zadd, do_zscore, do_zquery, query_members, query_set, query_loop, add_member, expect_zset,
  store_zset,
}
use greenis.Tests.Keys.{one}

-- One digit.
abbrev number : Bytes → Option ℕ
number [] = none
number (c ∷ cs) = some c

abbrev int : Bytes → Option ℤ
int [] = none
int (c ∷ cs) = some (pos c)

abbrev ne : ℕ → ℕ → Bool
ne a b = not (a == b)

abbrev zadd : List Bytes → Store ZSet → Run (Store ZSet × Buffer)
zadd words st = do_zadd ne ltb number int (literal "zadd" ∷ words) st []

abbrev set : Bytes
set = literal "s"

-- Two members are added to a set that was not there; the second is the first in order.
abbrev with_two : Run (Store ZSet × Buffer)
with_two = zadd (set ∷ (7 ∷ []) ∷ literal "a" ∷ []) one >>= λ r.
    zadd (set ∷ (5 ∷ []) ∷ literal "b" ∷ []) r.0

score_of_b :
    (with_two >>= λ r. do_zscore (literal "zscore" ∷ set ∷ literal "b" ∷ []) r.0 [] >>= λ s. ok s.1)
    ≡ ok (4 ∷ 5 ∷ 0 ∷ 0 ∷ 0 ∷ 0 ∷ 0 ∷ 0 ∷ 0 ∷ [])
unfolding do_zadd do_zscore hm_lookup str_hash hm_insert zset_insert zset_lookup znode_new
    tree_insert insert_below search hm_size avl_fix deref is_left avl_update fix_height avl_init
    entry_eq avl_fix_left avl_fix_right buf_append out_dbl out_int le_bytes find_in h_init h_insert
    h_lookup hash_from help_loop hm_help_rehashing hm_trigger_rehashing node_at add_member
    expect_zset store_zset entry_new find_entry bytes_eq hcmp zless zless_key
score_of_b = refl

-- The first member in order alone, by a limit of one.
first_member :
    (with_two >>= λ r.
    do_zquery ne ltb number int
      (literal "zquery" ∷ set ∷ (0 ∷ []) ∷ [] ∷ (0 ∷ []) ∷ (1 ∷ []) ∷ [])
      r.0
      []
    >>= λ s. ok s.1)
    ≡ ok (5 ∷ 2 ∷ 0 ∷ 0 ∷ 0 ∷ 2 ∷ 1 ∷ 0 ∷ 0 ∷ 0 ∷ 98 ∷ 4 ∷ 5 ∷ 0 ∷ 0 ∷ 0 ∷ 0 ∷ 0 ∷ 0 ∷ 0 ∷ [])
unfolding do_zadd do_zscore do_zquery query_members query_set query_loop hm_lookup str_hash
    hm_insert zset_insert zset_lookup znode_new tree_insert insert_below search hm_size avl_fix
    deref is_left avl_update fix_height avl_init entry_eq avl_fix_left avl_fix_right buf_append
    out_dbl out_int out_begin_arr out_end_arr out_str le_bytes find_in h_init h_insert h_lookup
    hash_from help_loop hm_help_rehashing hm_trigger_rehashing node_at add_member expect_zset
    store_zset entry_new find_entry bytes_eq hcmp zless zless_key zset_seekge seek znode_offset
    avl_offset offset_loop offset_round
first_member = refl
